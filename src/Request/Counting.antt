-- ===== src/Request/Counting.antt =====
-- Who ends a request: the counts of src/core/request_impl.cpp. A method's true answer tells its
-- caller to end the request, so one true answer must be given, and no second.
use hux.Base.{
  ℕ, zero, suc, ◌+◌, ◌-◌, ◌^◌, ◌≤◌, ◌<◌, ◌==◌, leb, Bool, true, false, List, [], ◌∷◌, length, ◌≡◌,
  refl, ◌∙◌, arith,
}
use hux.Types.{is_terminal}
use hux.Request.{
  Request, CompletionEvent, expected, on_subop_complete, seal_if_idle, set_parts, part_finished,
}

abbrev pub told : Bool → ℕ
told true = 1
told false = 0

-- Handles the events in turn, and counts the true answers.
unfoldable pub complete_all : Request → List CompletionEvent → Request × ℕ
complete_all r [] = (r, 0)
complete_all r (ev ∷ evs) =
    let (r', last) = on_subop_complete r ev in
    let (r'', n) = complete_all r' evs in (r'', told last + n)

-- What a completion leaves, and what it answers, on a live request.
record Counted (r r' : Request) (last : Bool) : Type 0 where
  live : is_terminal r'.state ≡ false
  sealed_as : r'.sealed ≡ r.sealed
  total_as : r'.total_subops ≡ r.total_subops
  accepted_as : r'.accepted_subops ≡ r.accepted_subops
  counted : r'.completed_subops ≡ r.completed_subops + 1
  answered : last ≡ leb (expected r) (r.completed_subops + 1)

on_subop_complete-Counted :
    (r : Request) (ev : CompletionEvent)
    → is_terminal r.state ≡ false
    → r.completed_subops + 1 < 2 ^ 32
    → Counted r (on_subop_complete r ev).0 (on_subop_complete r ev).1
unfolding on_subop_complete
on_subop_complete-Counted r ev live h = ground arith

expected-Counted : (r r' : Request) (last : Bool) → Counted r r' last → expected r' ≡ expected r
expected-Counted r r' last c = ground arith

-- Up to the expected count, the answers are false but for the one that reaches it.
record Tally (r : Request) (x c : ℕ) (r' : Request) (n : ℕ) : Type 0 where
  tally : n ≡ told (c == x)
  reached : r'.completed_subops ≡ c
  taken : r'.accepted_subops ≡ r.accepted_subops
  alive : is_terminal r'.state ≡ false

complete_all-Tally :
    (r : Request) (evs : List CompletionEvent) (x : ℕ)
    → expected r ≡ x
    → is_terminal r.state ≡ false
    → x < 2 ^ 32
    → r.completed_subops + length evs ≤ x
    → r.completed_subops < x
    → Tally r x (r.completed_subops + length evs) (complete_all r evs).0 (complete_all r evs).1
unfolding complete_all
complete_all-Tally r [] x e live h k l = ground arith
complete_all-Tally r (ev ∷ []) x e live h k l =
    let c = on_subop_complete-Counted r ev live (omega arith) in
    record {
      tally = ground (arith, c.answered);
      reached = omega (arith, c.counted);
      taken = c.accepted_as;
      alive = c.live;
    }
complete_all-Tally r (ev ∷ ev₂ ∷ evs) x e live h k l =
    let r' = (on_subop_complete r ev).0 in
    let c = on_subop_complete-Counted r ev live (omega arith) in
    let same = expected-Counted r r' _ c ∙ e in
    let rest =
      complete_all-Tally r' (ev₂ ∷ evs) x same c.live h (omega (arith, c.counted))
        (omega (arith, c.counted)) in
    record {
      tally = ground (arith, c.answered, rest.tally, c.counted);
      reached = omega (arith, rest.reached, c.counted);
      taken = rest.taken ∙ c.accepted_as;
      alive = rest.alive;
    }

-- A live request that was not sealed: its completions, up to `total_subops` of them (at least one,
-- below 2^32), in whatever order and whatever they report, tell a caller to end it exactly when the
-- last of them comes.
pub complete_all-once :
    (r : Request) (evs : List CompletionEvent)
    → is_terminal r.state ≡ false
    → r.sealed ≡ false
    → r.completed_subops ≡ 0
    → 0 < r.total_subops
    → r.total_subops < 2 ^ 32
    → length evs ≤ r.total_subops
    → (complete_all r evs).1 ≡ told (length evs == r.total_subops)
complete_all-once r evs live open_ none_yet pos small h =
    let t =
      complete_all-Tally r evs r.total_subops (ground arith) live small (omega arith)
        (omega arith) in
    t.tally ∙ ground arith

-- From the seal on.
sealed_once :
    (a : ℕ) (r : Request) (n : ℕ) (after : List CompletionEvent)
    → is_terminal r.state ≡ false
    → a < 2 ^ 32
    → r.accepted_subops ≡ a
    → n ≡ 0
    → r.completed_subops + length after ≡ a
    → n + told (seal_if_idle r).1 + (complete_all (seal_if_idle r).0 after).1 ≡ 1
unfolding seal_if_idle complete_all
sealed_once a r n [] live small taken zero_yet all = ground arith
sealed_once a r n (ev ∷ evs) live small taken zero_yet all =
    let t =
      complete_all-Tally (record r { sealed = true }) (ev ∷ evs) a taken live small (omega arith)
        (omega arith) in
    ground (arith, t.tally)

-- A live request whose submission stops with fewer than its `total_subops` (below 2^32) accepted:
-- any completions `before` the seal of the last lane, the seal, and the completions `after` it, as
-- many in all as were accepted, tell exactly one caller to end the request.
pub seal_race_once :
    (r : Request) (before after : List CompletionEvent)
    → is_terminal r.state ≡ false
    → r.sealed ≡ false
    → r.completed_subops ≡ 0
    → r.accepted_subops < r.total_subops
    → r.total_subops < 2 ^ 32
    → length before + length after ≡ r.accepted_subops
    → let r₁ = (complete_all r before).0 in
      let r₂ = (seal_if_idle r₁).0 in
      (complete_all r before).1 + told (seal_if_idle r₁).1 + (complete_all r₂ after).1 ≡ 1
seal_race_once r before after live open_ none_yet cut small split =
    let t =
      complete_all-Tally r before r.total_subops (ground arith) live small (omega arith)
        (omega arith) in
    sealed_once r.accepted_subops (complete_all r before).0 (complete_all r before).1 after t.alive
      (omega arith) t.taken (ground (arith, t.tally)) (omega (arith, t.reached))

-- `part_finished` for each of the lanes in turn, and the true answers.
unfoldable pub finish_parts : ℕ → Request → Request × ℕ
finish_parts zero r = (r, 0)
finish_parts (suc n) r =
    let (r', last) = part_finished r in let (r'', k) = finish_parts n r' in (r'', told last + k)

part_finished-step :
    (r : Request) (n : ℕ)
    → r.parts_left ≡ suc n
    → ((part_finished r).0.parts_left ≡ n) × ((part_finished r).1 ≡ (n == 0))
unfolding part_finished
part_finished-step r n h = ground arith

finish_parts-told :
    (k n : ℕ) (r : Request)
    → r.parts_left ≡ n
    → k ≤ n
    → 0 < n
    → ((finish_parts k r).1 ≡ told (k == n)) × ((finish_parts k r).0.parts_left ≡ n - k)
unfolding finish_parts
finish_parts-told zero n r p le pos = ground arith
finish_parts-told (suc k) zero r p le pos = absurd (omega arith)
finish_parts-told (suc zero) (suc n) r p le pos = ground (arith, part_finished-step r n p)
finish_parts-told (suc (suc k)) (suc n) r p le pos =
    let s = part_finished-step r n p in
    let rest = finish_parts-told (suc k) n (part_finished r).0 s.0 (omega arith) (omega arith) in
    ground (arith, s, rest)

-- Of the `n` lanes of a split request, the first `k` to finish hold the one that is told it was the
-- last exactly if they are all of them.
finish_parts-once :
    (r : Request) (n k : ℕ) → 0 < n → k ≤ n → (finish_parts k (set_parts r n)).1 ≡ told (k == n)
unfolding set_parts
finish_parts-once r n k pos le = (finish_parts-told k n (set_parts r n) refl le pos).0
