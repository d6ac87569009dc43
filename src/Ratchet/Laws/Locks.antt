-- ===== src/Ratchet/Laws/Locks.antt =====
-- The lock order of `SplitRatchet` (rvpn/crates/rvpn-core/src/crypto/ratchet.rs).
use r_vpn_core.Common.{
  ℕ, ◌≡◌, ◌≢◌, refl, inl, inr, ap, sym, ◌∙◌, List, [], ◌∷◌, Option, none, some, ◌==◌, ==_iff,
  Bool-cases, if◌then◌else◌,
}
use r_vpn_core.Ratchet.Locks.{
  Lock, root_key, dh_pair, remote_dh_key, previous_remote_dh_key, sending_chain, receiving_chain,
  previous_chain_length, Action, acquire, release, encrypt_locks, decrypt_new_key_locks, rank,
  Tasks, set_owner, set_todo, start_tasks, took, dropped, Turn, takes, drops, Turns, here, next,
}

lock_of : ℕ → Lock
lock_of n =
    if n == 0
    then root_key
    else if n == 1
    then dh_pair
    else if n == 2
    then remote_dh_key
    else if n == 3
    then previous_remote_dh_key
    else if n == 4
    then sending_chain
    else if n == 5
    then receiving_chain
    else previous_chain_length

lock_of-rank : (l : Lock) → lock_of (rank l) ≡ l
unfolding lock_of
lock_of-rank root_key = refl
lock_of-rank _ = refl

rank→eq : (l k : Lock) → rank l ≡ rank k → l ≡ k
rank→eq l k e = sym (lock_of-rank l) ∙ ap lock_of e ∙ lock_of-rank k

set_owner_other :
    (owner : Lock → Option ℕ) (l k : Lock) (o : Option ℕ) → k ≢ l → set_owner owner l o k ≡ owner k
set_owner_other owner l k o other = elim (Bool-cases (rank k == rank l)) [
  | inl e ↦ absurd (other (rank→eq k l ((==_iff (rank k) (rank l)).0 e)))
  | inr e ↦ rw e
]

set_todo_same :
    (todo : ℕ → List Action) (i : ℕ) (rest : List Action) → set_todo todo i rest i ≡ rest
set_todo_same todo i rest = rw ((==_iff i i).1 refl)

set_todo_other :
    (todo : ℕ → List Action) (i j : ℕ) (rest : List Action)
    → j ≢ i
    → set_todo todo i rest j ≡ todo j
set_todo_other todo i j rest other = elim (Bool-cases (j == i)) [
  | inl e ↦ absurd (other ((==_iff j i).0 e))
  | inr e ↦ rw e
]

-- Each of two tasks waits for a lock that the other holds.
pub record Blocked (i j : ℕ) (rest_i rest_j : List Action) (s : Tasks) : Type 0 where
  pub todo_i : s.todo i ≡ acquire dh_pair ∷ rest_i
  pub todo_j : s.todo j ≡ acquire sending_chain ∷ rest_j
  pub sending : s.owner sending_chain ≡ some i
  pub pair : s.owner dh_pair ≡ some j

Turn-Blocked :
    {i j : ℕ} {rest_i rest_j : List Action} {s t : Tasks}
    → Turn s t
    → Blocked i j rest_i rest_j s
    → Blocked i j rest_i rest_j t
Turn-Blocked {i} {j} {rest_i} {rest_j} {s} (takes k l rest e free) b =
    let not_i : i ≢ k = λ h. cc (b.todo_i, b.pair) in
    let not_j : j ≢ k = λ h. cc (b.todo_j, b.sending) in
    record {
      todo_i = set_todo_other s.todo k i rest not_i ∙ b.todo_i;
      todo_j = set_todo_other s.todo k j rest not_j ∙ b.todo_j;
      sending = set_owner_other s.owner l sending_chain (some k) (λ h. cc b.sending) ∙ b.sending;
      pair = set_owner_other s.owner l dh_pair (some k) (λ h. cc b.pair) ∙ b.pair;
    }
Turn-Blocked {i} {j} {rest_i} {rest_j} {s} (drops k l rest e held) b =
    let not_i : i ≢ k = λ h. cc b.todo_i in
    let not_j : j ≢ k = λ h. cc b.todo_j in
    record {
      todo_i = set_todo_other s.todo k i rest not_i ∙ b.todo_i;
      todo_j = set_todo_other s.todo k j rest not_j ∙ b.todo_j;
      sending =
          set_owner_other s.owner l sending_chain none (λ h. cc (b.todo_i, b.sending)) ∙ b.sending;
      pair = set_owner_other s.owner l dh_pair none (λ h. cc (b.todo_j, b.pair)) ∙ b.pair;
    }

Turns-Blocked :
    {i j : ℕ} {rest_i rest_j : List Action} {s t : Tasks}
    → Turns s t
    → Blocked i j rest_i rest_j s
    → Blocked i j rest_i rest_j t
Turns-Blocked here b = b
Turns-Blocked (next turns turn) b = Turn-Blocked turn (Turns-Blocked turns b)

-- A state on the way, with what two tasks have still to do and who holds which lock.
record OnTheWay (start : Tasks) (i j : ℕ) (todo_i todo_j : List Action) (owner : Lock → Option ℕ)
    : Type 0 where
  state : Tasks
  turns : Turns start state
  at_i : state.todo i ≡ todo_i
  at_j : state.todo j ≡ todo_j
  held : (l : Lock) → state.owner l ≡ owner l

set_owner_cong :
    (owner other : Lock → Option ℕ) (l : Lock) (o : Option ℕ)
    → ((k : Lock) → owner k ≡ other k)
    → (k : Lock) → set_owner owner l o k ≡ set_owner other l o k
set_owner_cong owner other l o same k = rw (same k)

module _ {start : Tasks} {i j : ℕ} {x y : List Action} {owner : Lock → Option ℕ} (l : Lock) where
  first_takes :
      i ≢ j
      → OnTheWay start i j (acquire l ∷ x) y owner
      → owner l ≡ none
      → OnTheWay start i j x y (set_owner owner l (some i))
  first_takes apart w free = record {
    state = took w.state i l x;
    turns = next w.turns (takes i l x w.at_i (w.held l ∙ free));
    at_i = set_todo_same w.state.todo i x;
    at_j = set_todo_other w.state.todo i j x (λ e. apart (sym e)) ∙ w.at_j;
    held = set_owner_cong w.state.owner owner l (some i) w.held;
  }

  second_takes :
      i ≢ j
      → OnTheWay start i j x (acquire l ∷ y) owner
      → owner l ≡ none
      → OnTheWay start i j x y (set_owner owner l (some j))
  second_takes apart w free = record {
    state = took w.state j l y;
    turns = next w.turns (takes j l y w.at_j (w.held l ∙ free));
    at_i = set_todo_other w.state.todo j i y apart ∙ w.at_i;
    at_j = set_todo_same w.state.todo j y;
    held = set_owner_cong w.state.owner owner l (some j) w.held;
  }

  second_drops :
      i ≢ j
      → OnTheWay start i j x (release l ∷ y) owner
      → owner l ≡ some j
      → OnTheWay start i j x y (set_owner owner l none)
  second_drops apart w mine = record {
    state = dropped w.state j l y;
    turns = next w.turns (drops j l y w.at_j (w.held l ∙ mine));
    at_i = set_todo_other w.state.todo j i y apart ∙ w.at_i;
    at_j = set_todo_same w.state.todo j y;
    held = set_owner_cong w.state.owner owner l none w.held;
  }

-- When no lock is held and one task is to run `encrypt` and another one `decrypt` of a message with
-- a new remote key, there is an order of their turns after which neither has finished and neither
-- ever gets further, whatever all the tasks do.
pub deadlock :
    (todo : ℕ → List Action) (i j : ℕ)
    → i ≢ j
    → todo i ≡ encrypt_locks
    → todo j ≡ decrypt_new_key_locks
    → (s : Tasks) × Turns (start_tasks todo) s
      × (s.todo i ≢ [])
      × (s.todo j ≢ [])
      × ((t : Tasks) → Turns s t → (t.todo i ≡ s.todo i) × (t.todo j ≡ s.todo j))
deadlock todo i j apart run_i run_j =
    let w0 : OnTheWay (start_tasks todo) i j encrypt_locks decrypt_new_key_locks (λ l. none) =
      record {
        state = start_tasks todo;
        turns = here;
        at_i = run_i;
        at_j = run_j;
        held = λ l. refl;
      } in
    let w1 = first_takes sending_chain apart w0 refl in
    let w2 = second_takes remote_dh_key apart w1 refl in
    let w3 = second_drops remote_dh_key apart w2 refl in
    let w4 = second_takes root_key apart w3 refl in
    let w5 = second_takes dh_pair apart w4 refl in
    let w6 = second_takes remote_dh_key apart w5 refl in
    let w = second_takes previous_remote_dh_key apart w6 refl in
    let b : Blocked i j _ _ w.state = record {
      todo_i = w.at_i;
      todo_j = w.at_j;
      sending = w.held sending_chain;
      pair = w.held dh_pair;
    } in
    (
      w.state,
      w.turns,
      (λ e. cc (w.at_i, e)),
      (λ e. cc (w.at_j, e)),
      λ t turns.
          let c = Turns-Blocked turns b in (c.todo_i ∙ sym b.todo_i, c.todo_j ∙ sym b.todo_j),
    )
