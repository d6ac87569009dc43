-- ===== src/Lib.antt =====
-- rVPN core: a verification library of the protocol core of rVPN.
--
-- rVPN tunnels TCP, DNS and IP traffic over WebSocket. The crate rvpn/crates/rvpn-core holds what
-- client, server and mobile apps share: the Double Ratchet that encrypts messages
-- (crypto/ratchet.rs with crypto/cipher.rs), the key agreement before it (crypto/x3dh.rs), the
-- binary codec of the messages (protocol/codec.rs with protocol/message.rs), the multiplexed frames
-- and flow credits inside a tunnel (protocol/multiplex.rs), the encrypted length framing
-- (protocol/length_framing.rs), two paddings (protocol/padding.rs, frame_padding.rs), and IP
-- packets (protocol/packet.rs). A proxied payload is put into a codec message or a multiplexed
-- frame, encrypted by the ratchet, and the ratchet message is again a codec message. Around it stand
-- the server's pool of tunnel addresses (rvpn-server/src/tun_server.rs), the store of TLS sessions
-- for reconnecting (rvpn-tls/src/resumption.rs), the choice of an exit server for a flow
-- (rvpn-split-tunnel/src/router.rs, rvpn-core/src/routing.rs) and the rewriting of addresses when a
-- device uses several exits (rvpn-mobile/src/nat_rewrite.rs), all under rvpn/crates.
--
-- The modules:
--  Common: Boolean tests, lists over the native numbers, results, integers as bytes, texts as bytes,
--   and maps as association lists.
--  Codec: encode_* and decode_* of protocol/codec.rs. A reader's state is the rest of the input in
--   place of the source's index. A String is its bytes; String::from_utf8 is the parameter is_utf8.
--  Ratchet: Primitives (what other crates give, as a record, with its laws), State (DoubleRatchet,
--   init_alice, init_bob, encrypt, dh_ratchet_step), Receive (decrypt in its stages,
--   skip_message_keys), InPlace (decrypt_to_ref), Borrowed (RatchetMessageRef::from_bytes), Split
--   (SplitRatchet run by one task), Locks (the order in which its operations take its mutexes, as a
--   step relation on any number of tasks). Random nonces and key pairs are arguments. A method
--   returns its result and the new state. A u32 counter wraps, as in a release build.
--  Multiplex: Frame (MultiplexedFrame, parse_frames, FrameCodec), Credits (FlowSendCredits as
--   functions, and as a step relation in which grants fall between the load and the
--   compare-exchange), Waiting (wait_for_credit_or_stall with the permit of Notify, beside any number
--   of calls of grant and close, one atomic action at a time). bincode is a parameter.
--  Framing: LengthFraming and Nonce, PacketPadding, FramePadding. The AEAD is a parameter and
--   random padding an argument.
--  Agreement: X3dh (X3DHInitiator and X3DHResponder of crypto/x3dh.rs); its secret starts the ratchet.
--   Ed25519 is a parameter.
--  Packet: Ip (parse_packet and create_ipv4_packet of protocol/packet.rs, with the checksum), Rewrite
--   (rewrite_src_ip and rewrite_dst_ip of nat_rewrite.rs on a list of bytes).
--  Server: IpPool (the pool of tun_server.rs: addresses are numbers, the map of leases a list), TunServer
--   (sessions, their senders as numbers, and the calls that take, keep and reclaim leases). A moment in
--   time is an argument, and an address of a pool is computed modulo 256 in its last octet.
--  Tls: Rustls and Boring (the two sides of ResumptionStore in resumption.rs). Tickets, sessions and key
--   exchange groups are type parameters.
--  Routing: Patterns and Router (router.rs: domain patterns, build, choose), Engine (RoutingEngine of
--   routing.rs). Texts are ASCII; the crates of IP networks are a record of operations with its laws.
--  Resolver: Cache (the cache of DnsResolver in rvpn-split-tunnel/src/dns_cache.rs), Wire (the packets
--   of its queries and answers). A moment is an argument, in milliseconds, and a cache size is not
--   zero.
-- Each part has its theorems under Laws and runs on concrete input under Tests.
--
-- Fuel: parse_loop takes one round more than there are bytes, and each round takes at least six
-- bytes. fold_carry takes two rounds, after which a sum of 32 bits has no carry left. The loop of
-- skip_message_keys counts the rounds that are left. skip_labels takes a round for each byte at
-- most. The loop of wait_for_credit_or_stall is one action at a time. Evicting from a store goes
-- through its queue, and gives no result where the source would loop on an empty queue.
--
-- Not modelled: the asynchronous sessions of client, server and mobile apps, system devices, TLS
-- backends, user interfaces, configuration, generated tables, and serde types that only external
-- serializers read; the rules of the split tunnel, the resolver's exchange with its servers, and the
-- identity pins.
pub mod Common
pub mod Codec
pub mod Ratchet
pub mod Multiplex
pub mod Framing
pub mod Packet
pub mod Agreement
pub mod Server
pub mod Tls
pub mod Routing
pub mod Resolver
