-- ===== src/Engine/Settled.antt =====
-- One notification of src/core/engine_impl.cpp at a time: when it is settled, and that sending it, its
-- answer and its cancellation leave it so.
use hux.Base.{
  ℕ, suc, ◌+◌, ◌%◌, ◌^◌, ◌≤◌, ◌<◌, ◌==◌, ==_iff, ◌≢◌, ltb, if◌then◌else◌, if-all, Bool, true, false,
  ◌&&◌, not, List, [], ◌∷◌, ◌++◌, length, Option, none, some, Bool-cases, inl, inr, ◌⊎◌, ◌≡◌, refl,
  sym, ap, ◌∙◌, subst, arith,
}
use hux.Types.{Status, is_ok, Result, ErrorInfo, is_terminal, transfer_complete}
use hux.Request.{
  Request, new_request, set_state, mark_stage, finish_success, finish_cancelled, fail, cancel,
}
use hux.Request.Counting.{told}
use hux.Engine.Post.{has_id}
use hux.Engine.Notifying.{
  Notifying, change, remove, notify, notify_sent, send_failed, ended_with, answered,
  cancel_notification,
}

abbrev pub count : ℕ → List ℕ → ℕ
count n [] = 0
count n (x ∷ xs) = if x == n then suc (count n xs) else count n xs

pub count-append : (n : ℕ) (xs ys : List ℕ) → count n (xs ++ ys) ≡ count n xs + count n ys
count-append n [] ys = omega arith
count-append n (x ∷ xs) ys = ground (arith, count-append n xs ys)

pub has_id-count : (xs : List ℕ) (n : ℕ) → has_id xs n ≡ ltb 0 (count n xs)
has_id-count [] n = ground arith
has_id-count (x ∷ xs) n = ground (arith, has_id-count xs n)

count-remove :
    (n id : ℕ) (xs : List ℕ)
    → count n (remove id xs) + told (n == id && ltb 0 (count id xs)) ≡ count n xs
count-remove n id [] = ground arith
count-remove n id (x ∷ xs) = ground (arith, count-remove n id xs)

-- What is known of the number `n`, with `waits` entries pending, `ends` ends, and `next` the next
-- number: nothing, if no notification has it, and they are numbered from 1; else that it is pending or has ended, once, and its
-- request accordingly.
abbrev pub Settles : ℕ → ℕ → ℕ → ℕ → Option Request → Type 0
Settles waits ends next n none = (waits + ends ≡ 0) × ((n ≡ 0) ⊎ (next ≤ n))
Settles waits ends next n (some r) =
    (waits + ends ≡ 1) × (n < next) × (is_terminal r.state ≡ (waits == 0))

-- How often a notification ended: published, or found not to go out.
abbrev pub ends : ℕ → Notifying → ℕ
ends n s = count n s.published + count n s.unsent

abbrev pub IsSettled : Notifying → Type 0
IsSettled s = (n : ℕ) → Settles (count n s.pending) (ends n s) s.next_notify n (s.requests n)

pub Settles-eq :
    (w w' e e' next n : ℕ) (q : Option Request)
    → w' ≡ w
    → e' ≡ e
    → Settles w e next n q
    → Settles w' e' next n q
Settles-eq w w' e e' next n q a b v = rw (a, b) v

pub Settles-all :
    (w w' e e' next next' n : ℕ) (q q' : Option Request)
    → w' ≡ w
    → e' ≡ e
    → next' ≡ next
    → q' ≡ q
    → Settles w e next n q
    → Settles w' e' next' n q'
Settles-all w w' e e' next next' n q q' a b c d v = rw (a, b, c, d) v

-- The number handed out next has neither an entry nor an end.
Settles-next : (w e next : ℕ) (q : Option Request) → Settles w e next next q → (w ≡ 0) × (e ≡ 0)
Settles-next w e next none v = omega arith
Settles-next w e next (some r) v = absurd (omega arith)

Settles-past :
    (w e next n : ℕ) (q : Option Request)
    → n ≢ next
    → Settles w e next n q
    → Settles w e (next + 1) n q
Settles-past w e next n none other v = (v.0, ground arith)
Settles-past w e next n (some r) other v = (v.0, omega arith, v.2)

abbrev pub map_request : (Request → Request) → Option Request → Option Request
map_request f none = none
map_request f (some r) = some (f r)

-- An entry taken out, and its request ended.
pub Settles-ended :
    (f : Request → Request) (w e next n : ℕ) (q : Option Request)
    → ((r : Request) → is_terminal (f r).state ≡ true)
    → 0 < w
    → Settles w e next n q
    → Settles 0 (e + 1) next n (map_request f q)
Settles-ended f w e next n none done_with some_wait v = absurd (omega arith)
Settles-ended f w e next n (some r) done_with some_wait v = (omega arith, v.1, done_with r)

-- A request changed, but not ended.
Settles-changed :
    (f : Request → Request) (w e next n : ℕ) (q : Option Request)
    → ((r : Request) → is_terminal (f r).state ≡ is_terminal r.state)
    → Settles w e next n q
    → Settles w e next n (map_request f q)
Settles-changed f w e next n none same v = v
Settles-changed f w e next n (some r) same v = (v.0, v.1, same r ∙ v.2)

pub notify-IsSettled :
    (max_payload : ℕ) (s : Notifying) (peer : ℕ) (connected : Bool) (payload : List ℕ)
    → s.next_notify + 1 < 2 ^ 64
    → IsSettled s
    → IsSettled (notify max_payload s peer connected payload).0
unfolding notify new_request set_state
notify-IsSettled max_payload s peer connected payload small v =
    let same : (s.next_notify + 1) % 2 ^ 64 ≡ s.next_notify + 1 = omega arith in
    let P = λ (q : Notifying × Result ℕ). IsSettled q.0 in
    if-all P (ltb max_payload (length payload)) _ _ v (
      if-all P s.closed _ _ v (
        if-all P (not connected) _ _ v (λ n. elim (Bool-cases (n == s.next_notify)) [
          | inl new ↦
              let e = (==_iff n s.next_notify).0 new in
              let zero_so_far =
                Settles-next (count s.next_notify s.pending) (ends s.next_notify s) s.next_notify
                  (s.requests s.next_notify) (v s.next_notify) in
              rw (same, e) (ground (arith, zero_so_far))
          | inr old ↦
              rw (same, old)
                (Settles-eq (count n s.pending) (count n (s.next_notify ∷ s.pending)) (ends n s)
                  (ends n s) (s.next_notify + 1) n (s.requests n) (ground arith) refl
                  (Settles-past (count n s.pending) (ends n s) s.next_notify n (s.requests n)
                    (ground arith) (v n)))
        ])))

pub Settles-le : (w e next n : ℕ) (q : Option Request) → Settles w e next n q → w ≤ 1
Settles-le w e next n none v = omega arith
Settles-le w e next n (some r) v = omega arith

pub change-eq :
    (table : ℕ → Option Request) (id : ℕ) (f : Request → Request) (n : ℕ)
    → change table id f n ≡ (if n == id then map_request f (table n) else table n)
change-eq table id f n =
    ap (λ (q : Option Request). if n == id then q else table n) (map_request-eq f (table n))
  where
    map_request-eq :
        (f : Request → Request) (q : Option Request)
        → ◌≡◌ {A = Option Request} (elim q [ none ↦ none | some r ↦ some (f r) ]) (map_request f q)
    map_request-eq f none = refl
    map_request-eq f (some r) = refl

-- One pending entry taken out, and its request ended.
pub taken-Settles :
    (s : Notifying) (id : ℕ) (f : Request → Request)
    → IsSettled s
    → has_id s.pending id ≡ true
    → ((r : Request) → is_terminal (f r).state ≡ true)
    → (n : ℕ)
    → Settles
        (count n (remove id s.pending))
        (ends n s + told (n == id))
        s.next_notify
        n
        (change s.requests id f n)
taken-Settles s id f v waits done_with n =
    subst (Settles (count n (remove id s.pending)) (ends n s + told (n == id)) s.next_notify n)
      (sym (change-eq s.requests id f n))
      (elim (Bool-cases (n == id)) [
        | inl same ↦
            let e = (==_iff n id).0 same in
            let one =
              Settles-le (count n s.pending) (ends n s) s.next_notify n (s.requests n) (v n) in
            let there : 0 < count n s.pending = ground (arith, has_id-count s.pending id) in
            rw same (
              Settles-eq 0 (count n (remove id s.pending)) (ends n s + 1) (ends n s + told true)
                s.next_notify n (map_request f (s.requests n))
                (ground (arith, count-remove n id s.pending)) refl
                (Settles-ended f (count n s.pending) (ends n s) s.next_notify n (s.requests n)
                  done_with there (v n)))
        | inr other ↦ rw other (
            Settles-eq (count n s.pending) (count n (remove id s.pending)) (ends n s)
              (ends n s + told false) s.next_notify n (s.requests n)
              (ground (arith, count-remove n id s.pending)) (omega arith) (v n))
      ])

pub answered-IsSettled :
    (s : Notifying) (id : ℕ) (f : Request → Request)
    → ((r : Request) → is_terminal (f r).state ≡ true)
    → IsSettled s
    → IsSettled (answered s id f)
unfolding answered
answered-IsSettled s id f done_with v = elim (Bool-cases (has_id s.pending id)) [
  | inr gone ↦ rw (gone, answered) v
  | inl waits ↦
      rw (waits, answered)
        (λ n.
          Settles-eq (count n (remove id s.pending)) (count n (remove id s.pending))
            (ends n s + told (n == id)) (count n (s.published ++ (id ∷ [])) + count n s.unsent)
            s.next_notify n (change s.requests id f n) refl
            (ground (arith, count-append n s.published (id ∷ [])))
            (taken-Settles s id f v waits done_with n))
]

pub fail-terminal : (e : ErrorInfo) (r : Request) → is_terminal (fail r e).state ≡ true
unfolding fail
fail-terminal e r = ground arith

pub success-terminal :
    (r : Request) → is_terminal (finish_success (mark_stage r transfer_complete)).state ≡ true
unfolding finish_success mark_stage
success-terminal r = ground arith

pub ended_with-terminal : (e : ErrorInfo) (r : Request) → is_terminal (ended_with e r).state ≡ true
unfolding finish_cancelled fail
ended_with-terminal e r = ground arith

cancel-terminal : (r : Request) → is_terminal (cancel r).0.state ≡ is_terminal r.state
unfolding cancel
cancel-terminal r = ground arith

pub notify_sent-IsSettled :
    (s : Notifying) (id : ℕ) (provider : List ℕ) (peer : ℕ) (status : Status)
    → IsSettled s
    → IsSettled (notify_sent s id provider peer status)
unfolding notify_sent
notify_sent-IsSettled s id provider peer status v =
    if-all IsSettled (is_ok status) _ _ v (elim (Bool-cases (has_id s.pending id)) [
      | inr gone ↦ rw gone v
      | inl waits ↦
          let f = λ (r : Request). fail r (send_failed provider peer status) in
          rw waits (λ n.
            Settles-eq (count n (remove id s.pending)) (count n (remove id s.pending))
              (ends n s + told (n == id)) (count n s.published + count n (s.unsent ++ (id ∷ [])))
              s.next_notify n (change s.requests id f n) refl
              (ground (arith, count-append n s.unsent (id ∷ [])))
              (taken-Settles s id f v waits (fail-terminal _) n))
    ])

pub cancel-IsSettled : (s : Notifying) (id : ℕ) → IsSettled s → IsSettled (cancel_notification s id)
unfolding cancel_notification
cancel-IsSettled s id v n =
    subst (Settles (count n s.pending) (ends n s) s.next_notify n)
      (sym (change-eq s.requests id (λ r. (cancel r).0) n))
      (if-all (Settles (count n s.pending) (ends n s) s.next_notify n) (n == id) _ _
        (Settles-changed (λ r. (cancel r).0) (count n s.pending) (ends n s) s.next_notify n
          (s.requests n) cancel-terminal (v n))
        (v n))
