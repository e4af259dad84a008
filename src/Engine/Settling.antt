-- ===== src/Engine/Settling.antt =====
-- `end_notifications` of src/core/engine_impl.cpp ends every notification that it takes out once.
use hux.Base.{
  ℕ, ◌+◌, ◌≤◌, ◌==◌, ==_iff, ltb, if◌then◌else◌, Bool, true, false, ◌&&◌, List, [], ◌∷◌, ◌++◌,
  Option, Bool-cases, inl, inr, ◌≡◌, refl, sym, ap, ◌∙◌, arith,
}
use hux.Types.{ErrorInfo}
use hux.Request.{Request}
use hux.Engine.Notifying.{Notifying, change, matches, ended_with, pick, end_each, end_notifications}
use hux.Engine.Settled.{
  count, ends, IsSettled, Settles-all, Settles-le, Settles-ended, change-eq, map_request,
  count-append, ended_with-terminal,
}

-- What ending each of `ids` leaves.
record Ended (e : ErrorInfo) (s : Notifying) (ids : List ℕ) (s' : Notifying) (n : ℕ) : Type 0 where
  pending : s'.pending ≡ s.pending
  next : s'.next_notify ≡ s.next_notify
  more : ends n s' ≡ ends n s + count n ids
  request :
      count n ids ≤ 1
      → s'.requests n
        ≡ (if count n ids == 0 then s.requests n else map_request (ended_with e) (s.requests n))

end_each-Ended :
    (e : ErrorInfo) (s : Notifying) (ids : List ℕ) (n : ℕ) → Ended e s ids (end_each e s ids) n
unfolding end_each
end_each-Ended e s [] n = record {
  pending = refl;
  next = refl;
  more = omega arith;
  request = λ h. refl;
}
end_each-Ended e s (id ∷ ids) n =
    let s₁ : Notifying = record s {
      requests = change s.requests id (ended_with e);
      published = s.published ++ (id ∷ []);
    } in
    let ih = end_each-Ended e s₁ ids n in
    record {
      pending = ih.pending;
      next = ih.next;
      more = ground (arith, ih.more, count-append n s.published (id ∷ []));
      request = λ h. elim (Bool-cases (n == id)) [
        | inl same ↦
            let none_left : count n ids ≡ 0 = ground (arith, h) in
            let now : change s.requests id (ended_with e) n
                ≡ map_request (ended_with e) (s.requests n) =
              change-eq s.requests id (ended_with e) n
              ∙ ap
                  (λ (b : Bool).
                    if b then map_request (ended_with e) (s.requests n) else s.requests n)
                  same in
            let one_more : false ≡ (count n (id ∷ ids) == 0) = ground (arith, same) in
            ih.request (omega arith)
            ∙ ap
                (λ (k : ℕ).
                  if k == 0
                  then change s.requests id (ended_with e) n
                  else map_request (ended_with e) (change s.requests id (ended_with e) n))
                none_left
            ∙ now
            ∙ ap
                (λ (b : Bool).
                  if b then s.requests n else map_request (ended_with e) (s.requests n))
                one_more
        | inr other ↦
            let now : change s.requests id (ended_with e) n ≡ s.requests n =
              change-eq s.requests id (ended_with e) n
              ∙ ap
                  (λ (b : Bool).
                    if b then map_request (ended_with e) (s.requests n) else s.requests n)
                  other in
            let as_before : count n (id ∷ ids) ≡ count n ids = ground (arith, other) in
            ih.request (omega arith)
            ∙ ap
                (λ (q : Option Request).
                  if count n ids == 0 then q else map_request (ended_with e) q)
                now
            ∙ ap
                (λ (k : ℕ).
                  if k == 0 then s.requests n else map_request (ended_with e) (s.requests n))
                (sym as_before)
      ];
    }

count-pick :
    (test : ℕ → Bool) (n : ℕ) (xs : List ℕ)
    → (count n (pick test true xs) ≡ (if test n then count n xs else 0))
      × (count n (pick test false xs) ≡ (if test n then 0 else count n xs))
count-pick test n [] = ground arith
count-pick test n (x ∷ xs) = elim (Bool-cases (x == n)) [
  | inl same ↦ rw ((==_iff x n).0 same) (ground (arith, count-pick test n xs))
  | inr other ↦ ground (arith, other, count-pick test n xs)
]

if_true {ℓ} : {A : Type ℓ} (b : Bool) (x y : A) → b ≡ true → (if b then x else y) ≡ x
if_true b x y h = rw h

if_false {ℓ} : {A : Type ℓ} (b : Bool) (x y : A) → b ≡ false → (if b then x else y) ≡ y
if_false b x y h = rw h

pub end_notifications-IsSettled :
    (s : Notifying) (peer : ℕ) (only_cancelled : Bool) (e : ErrorInfo)
    → IsSettled s
    → IsSettled (end_notifications s peer only_cancelled e)
unfolding end_notifications
end_notifications-IsSettled s peer only_cancelled e v n =
    let test = λ (id : ℕ). matches peer only_cancelled (s.requests id) in
    let picked = count-pick test n s.pending in
    let one = Settles-le (count n s.pending) (ends n s) s.next_notify n (s.requests n) (v n) in
    let s₁ : Notifying = record s { pending = pick test false s.pending } in
    let s₂ = end_each e s₁ (pick test true s.pending) in
    let after = end_each-Ended e s₁ (pick test true s.pending) n in
    let left = ap (count n) after.pending in
    let asked = after.request (ground (arith, picked.0, one)) in
    let keep =
      Settles-all (count n s.pending) (count n s₂.pending) (ends n s) (ends n s₂) s.next_notify
        s₂.next_notify n (s.requests n) (s₂.requests n) in
    elim (Bool-cases (test n && ltb 0 (count n s.pending))) [
      | inl taken ↦
          Settles-all 0 (count n s₂.pending) (ends n s + 1) (ends n s₂) s.next_notify s₂.next_notify
            n (map_request (ended_with e) (s.requests n)) (s₂.requests n)
            (left ∙ ground (arith, picked.1, taken))
            (ground (arith, after.more, picked.0, taken, one)) after.next
            (asked
              ∙ if_false (count n (pick test true s.pending) == 0) _ _
                  (ground (arith, picked.0, taken)))
            (Settles-ended (ended_with e) (count n s.pending) (ends n s) s.next_notify n
              (s.requests n) (ended_with-terminal e) (ground (arith, taken)) (v n))
      | inr left_alone ↦
          keep (left ∙ ground (arith, picked.1, left_alone))
            (ground (arith, after.more, picked.0, left_alone)) after.next
            (asked
              ∙ if_true (count n (pick test true s.pending) == 0) _ _
                  (ground (arith, picked.0, left_alone)))
            (v n)
    ]

pub next-end_notifications :
    (s : Notifying) (peer : ℕ) (only_cancelled : Bool) (e : ErrorInfo)
    → (end_notifications s peer only_cancelled e).next_notify ≡ s.next_notify
unfolding end_notifications
next-end_notifications s peer only_cancelled e =
    let test = λ (id : ℕ). matches peer only_cancelled (s.requests id) in
    let s₁ : Notifying = record s { pending = pick test false s.pending } in
    (end_each-Ended e s₁ (pick test true s.pending) 0).next
