-- ===== src/Ratchet/Locks.antt =====
-- The locks of `SplitRatchet` of rvpn/crates/rvpn-core/src/crypto/ratchet.rs: for each operation the
-- locks that it takes and drops, in order, and any number of tasks that interleave. A guard is dropped
-- by the task that holds it.
use r_vpn_core.Common.{ℕ, ◌≡◌, List, [], ◌∷◌, ◌++◌, Option, none, some, ◌==◌, if◌then◌else◌}

-- The mutexes of `SplitRatchet`, one for each field.
pub data Lock : Type 0 where
  root_key dh_pair remote_dh_key previous_remote_dh_key : Lock
  sending_chain receiving_chain previous_chain_length : Lock

pub data Action : Type 0 where
  acquire : Lock → Action
  release : Lock → Action

-- `encrypt` with a sending chain that has a key: the pair and the length are locked while the sending chain is.
abbrev pub encrypt_locks : List Action
encrypt_locks =
    acquire sending_chain
    ∷ acquire dh_pair
    ∷ release dh_pair
    ∷ acquire previous_chain_length
    ∷ release previous_chain_length
    ∷ release sending_chain
    ∷ []

-- `dh_ratchet_step`: the guards are dropped at the end, the last one first.
abbrev pub ratchet_locks : List Action
ratchet_locks =
    acquire root_key
    ∷ acquire dh_pair
    ∷ acquire remote_dh_key
    ∷ acquire previous_remote_dh_key
    ∷ acquire sending_chain
    ∷ acquire receiving_chain
    ∷ acquire previous_chain_length
    ∷ release previous_chain_length
    ∷ release receiving_chain
    ∷ release sending_chain
    ∷ release previous_remote_dh_key
    ∷ release remote_dh_key
    ∷ release dh_pair
    ∷ release root_key
    ∷ []

-- The end of `decrypt`.
abbrev pub receive_locks : List Action
receive_locks = acquire receiving_chain ∷ release receiving_chain ∷ []

-- `decrypt` of a message with a new key.
abbrev pub decrypt_new_key_locks : List Action
decrypt_new_key_locks =
    acquire remote_dh_key ∷ release remote_dh_key ∷ (ratchet_locks ++ receive_locks)

abbrev pub rank : Lock → ℕ
rank root_key = 0
rank dh_pair = 1
rank remote_dh_key = 2
rank previous_remote_dh_key = 3
rank sending_chain = 4
rank receiving_chain = 5
rank previous_chain_length = 6

-- Who holds each lock, and what each task has still to do.
pub record Tasks : Type 0 where
  pub owner : Lock → Option ℕ
  pub todo : ℕ → List Action

abbrev pub set_owner : (Lock → Option ℕ) → Lock → Option ℕ → Lock → Option ℕ
set_owner owner l o k = if rank k == rank l then o else owner k

abbrev pub set_todo : (ℕ → List Action) → ℕ → List Action → ℕ → List Action
set_todo todo i rest j = if j == i then rest else todo j

abbrev pub start_tasks : (ℕ → List Action) → Tasks
start_tasks todo = record { owner = λ l. none; todo = todo }

abbrev pub took : Tasks → ℕ → Lock → List Action → Tasks
took s i l rest = record { owner = set_owner s.owner l (some i); todo = set_todo s.todo i rest }

abbrev pub dropped : Tasks → ℕ → Lock → List Action → Tasks
dropped s i l rest = record { owner = set_owner s.owner l none; todo = set_todo s.todo i rest }

-- `lock().await` goes on only if the lock is free.
pub data Turn (s : Tasks) : Tasks → Type 0 where
  takes :
      (i : ℕ) (l : Lock) (rest : List Action)
      → s.todo i ≡ acquire l ∷ rest
      → s.owner l ≡ none
      → Turn s (took s i l rest)
  drops :
      (i : ℕ) (l : Lock) (rest : List Action)
      → s.todo i ≡ release l ∷ rest
      → s.owner l ≡ some i
      → Turn s (dropped s i l rest)

pub data Turns (s : Tasks) : Tasks → Type 0 where
  here : Turns s s
  next : {t u : Tasks} → Turns s t → Turn t u → Turns s u
