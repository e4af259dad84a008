-- ===== src/Engine/Choosing.antt =====
-- Which transport `add_peer` of src/core/engine_impl.cpp chooses for a peer.
use hux.Base.{
  ℕ, ==_iff, true, false, List, [], ◌∷◌, ◌++◌, Option, none, some, All, ◌≡◌, refl, ap, arith,
  Bool-cases, Option-cases, inl, inr, ◌⊎◌, ◌≢◌, ◌↔◌, subst,
}
use hux.Control.Identity.{Locality, same_engine, same_process, same_host, remote}
use hux.Engine.Metadata.{Offer}
use hux.Engine.Peering.{Candidate, eq_name, ipc, local, suits, offer_of, dialled_with, choose}

eq_name_iff : (a b : List ℕ) → (eq_name a b ≡ true) ↔ (a ≡ b)
eq_name_iff [] [] = ((λ h. refl), (λ h. refl))
eq_name_iff [] (y ∷ ys) = ((λ h. cc), (λ h. cc))
eq_name_iff (x ∷ xs) [] = ((λ h. cc), (λ h. cc))
eq_name_iff (x ∷ xs) (y ∷ ys) =
    let ih = eq_name_iff xs ys in
    ((λ h. ground (arith, h, ih, ==_iff x y)), (λ h. ground (arith, h, ih, ==_iff x y)))

-- Where a transport can carry transfers: "ipc" within a host, "local" within a process, and any
-- other everywhere.
abbrev pub IsSuited : List ℕ → Locality → Type 0
IsSuited name same_engine = (name ≢ ipc) × (name ≢ local)
IsSuited name same_process = Unit
IsSuited name same_host = name ≢ local
IsSuited name remote = (name ≢ ipc) × (name ≢ local)

-- The first offer under that name is `meta`.
abbrev pub IsOffered : List Offer → List ℕ → List ℕ → Type 0
IsOffered [] name meta = ⊥
IsOffered (o ∷ os) name meta =
    ((o.name ≡ name) × (o.meta ≡ meta)) ⊎ ((o.name ≢ name) × IsOffered os name meta)

-- A peer that names no transport gave a bare blob.
abbrev pub IsGiven : List Offer → List ℕ → List ℕ → List ℕ → Type 0
IsGiven [] blob name meta = blob ≡ meta
IsGiven (o ∷ os) blob name meta = IsOffered (o ∷ os) name meta

named : (a b : List ℕ) → ((a ≡ b) × (eq_name a b ≡ true)) ⊎ ((a ≢ b) × (eq_name a b ≡ false))
named a b = elim (Bool-cases (eq_name a b)) [
  | inl same ↦ inl ((eq_name_iff a b).0 same, same)
  | inr other ↦ inr ((λ e. cc ((eq_name_iff a b).1 e)), other)
]

-- The names "ipc" and "local" are two.
ipc-other : (name : List ℕ) → name ≡ ipc → name ≢ local
ipc-other name e h = cc

suits_iff :
    (name : List ℕ) (locality : Locality) → (suits name locality ≡ true) ↔ IsSuited name locality
unfolding suits
suits_iff name locality = elim (named name ipc) [
  | inl (is_ipc, e) ↦ by_ipc locality is_ipc e (ipc-other name is_ipc)
  | inr (not_ipc, e) ↦ elim (named name local) [
    | inl (is_local, f) ↦ by_local locality e is_local f
    | inr (not_local, f) ↦ by_other locality not_ipc e not_local f
  ]
]
  where
    by_ipc :
        (at : Locality)
        → name ≡ ipc
        → eq_name name ipc ≡ true
        → name ≢ local
        → (suits name at ≡ true) ↔ IsSuited name at
    by_ipc same_engine i e n = (rw (e, suits) (λ h. cc), λ h. absurd (h.0 i))
    by_ipc same_process i e n = (rw (e, suits) (λ h. tt), rw (e, suits) (λ h. refl))
    by_ipc same_host i e n = (rw (e, suits) (λ h. n), rw (e, suits) (λ h. refl))
    by_ipc remote i e n = (rw (e, suits) (λ h. cc), λ h. absurd (h.0 i))

    by_local :
        (at : Locality)
        → eq_name name ipc ≡ false
        → name ≡ local
        → eq_name name local ≡ true
        → (suits name at ≡ true) ↔ IsSuited name at
    by_local same_engine e i f = (rw (e, f, suits) (λ h. cc), λ h. absurd (h.1 i))
    by_local same_process e i f = (rw (e, f, suits) (λ h. tt), rw (e, f, suits) (λ h. refl))
    by_local same_host e i f = (rw (e, f, suits) (λ h. cc), λ h. absurd (h i))
    by_local remote e i f = (rw (e, f, suits) (λ h. cc), λ h. absurd (h.1 i))

    by_other :
        (at : Locality)
        → name ≢ ipc
        → eq_name name ipc ≡ false
        → name ≢ local
        → eq_name name local ≡ false
        → (suits name at ≡ true) ↔ IsSuited name at
    by_other same_engine m e n f = (rw (e, f, suits) (λ h. (m, n)), rw (e, f, suits) (λ h. refl))
    by_other same_process m e n f = (rw (e, f, suits) (λ h. tt), rw (e, f, suits) (λ h. refl))
    by_other same_host m e n f = (rw (e, f, suits) (λ h. n), rw (e, f, suits) (λ h. refl))
    by_other remote m e n f = (rw (e, f, suits) (λ h. (m, n)), rw (e, f, suits) (λ h. refl))

-- What looking for an offer finds: the first one, or that there is none.
abbrev Found : List Offer → List ℕ → Option (List ℕ) → Type 0
Found os name none = (meta : List ℕ) → IsOffered os name meta → ⊥
Found os name (some meta) = IsOffered os name meta

Found-cons :
    (o : Offer) (os : List Offer) (name : List ℕ) (r : Option (List ℕ))
    → o.name ≢ name
    → Found os name r
    → Found (o ∷ os) name r
Found-cons o os name none other h = λ meta offered. elim offered [
  | inl (same, e) ↦ absurd (other same)
  | inr (n, later) ↦ h meta later
]
Found-cons o os name (some meta) other h = inr (other, h)

offer_of-Found : (os : List Offer) (name : List ℕ) → Found os name (offer_of os name)
unfolding offer_of
offer_of-Found [] name = λ meta never. never
offer_of-Found (o ∷ os) name = elim (named o.name name) [
  | inl (same, e) ↦ rw (e, offer_of) (inl (same, refl))
  | inr (other, e) ↦
      rw (e, offer_of) (Found-cons o os name (offer_of os name) other (offer_of-Found os name))
]

module _ {C : Type 0} where
  -- A transport that suits where the peer is, with what the peer gave to dial it with.
  abbrev pub IsUsable : Locality → List Offer → List ℕ → Candidate C → List ℕ → Type 0
  IsUsable locality offered blob p meta =
      IsSuited p.name locality × IsGiven offered blob p.name meta

  abbrev pub IsUseless : Locality → List Offer → List ℕ → Candidate C → Type 0
  IsUseless locality offered blob p = (meta : List ℕ) → IsUsable locality offered blob p meta → ⊥

  abbrev Dials : Locality → List Offer → List ℕ → Candidate C → Option (List ℕ) → Type 0
  Dials locality offered blob p none = IsUseless locality offered blob p
  Dials locality offered blob p (some meta) = IsUsable locality offered blob p meta

  Dials-offer :
      (locality : Locality) (o : Offer) (os : List Offer) (blob : List ℕ) (p : Candidate C)
      (r : Option (List ℕ))
      → IsSuited p.name locality
      → Found (o ∷ os) p.name r
      → Dials locality (o ∷ os) blob p r
  Dials-offer locality o os blob p none fit h = λ meta usable. h meta usable.1
  Dials-offer locality o os blob p (some meta) fit h = (fit, h)

  dialled_with-Dials :
      (locality : Locality) (offered : List Offer) (blob : List ℕ) (p : Candidate C)
      → Dials locality offered blob p (dialled_with locality offered blob p)
  unfolding dialled_with
  dialled_with-Dials locality offered blob p = elim (Bool-cases (suits p.name locality)) [
    | inr unfit ↦
        rw (unfit, dialled_with) (λ meta usable. cc ((suits_iff p.name locality).1 usable.0))
    | inl fit ↦ rw (fit, dialled_with) (given offered ((suits_iff p.name locality).0 fit))
  ]
    where
      given :
          (os : List Offer)
          → IsSuited p.name locality
          → Dials locality os blob p
              (elim os [ [] ↦ some blob | (x ∷ xs) ↦ offer_of (x ∷ xs) p.name ])
      given [] fit = (fit, refl)
      given (o ∷ os) fit = Dials-offer locality o os blob p _ fit (offer_of-Found (o ∷ os) p.name)

  -- A choice is the first usable transport of the list, and no choice means there is none.
  abbrev pub ChosenFrom :
      Locality → List Offer → List ℕ → List (Candidate C) → Option (Candidate C × List ℕ) → Type 0
  ChosenFrom locality offered blob ps none = All (IsUseless locality offered blob) ps
  ChosenFrom locality offered blob ps (some (p, meta)) =
      (before : List (Candidate C)) × ((later : List (Candidate C)) × ((ps ≡ before ++ (p ∷ later))
          × (All (IsUseless locality offered blob) before × IsUsable locality offered blob p meta)))

  ChosenFrom-cons :
      (locality : Locality) (offered : List Offer) (blob : List ℕ) (p : Candidate C)
      (ps : List (Candidate C)) (r : Option (Candidate C × List ℕ))
      → IsUseless locality offered blob p
      → ChosenFrom locality offered blob ps r
      → ChosenFrom locality offered blob (p ∷ ps) r
  ChosenFrom-cons locality offered blob p ps none e h = (e, h)
  ChosenFrom-cons locality offered blob p ps (some (q, meta)) e
        (before, (later, (split, (useless, usable)))) =
      (p ∷ before, (later, (ap (λ (l : List (Candidate C)). p ∷ l) split, ((e, useless), usable))))

  -- The transport chosen is the first, in local preference order, that suits where the peer is -
  -- "ipc" only on the same host, "local" only in the same process - and that the peer offers, or
  -- any that suits if the peer names none, and it is dialled with what the peer gave for it; none
  -- is chosen only if there is no such transport.
  pub choose-ChosenFrom :
      (locality : Locality) (offered : List Offer) (blob : List ℕ) (ps : List (Candidate C))
      → ChosenFrom locality offered blob ps (choose locality offered blob ps)
  unfolding choose
  choose-ChosenFrom locality offered blob [] = tt
  choose-ChosenFrom locality offered blob (p ∷ ps) =
      let dials = dialled_with-Dials locality offered blob p in
      elim (Option-cases (dialled_with locality offered blob p)) [
        | inr (meta, e) ↦
            rw (e, choose) ([], (ps, (refl, (tt, subst (Dials locality offered blob p) e dials))))
        | inl e ↦
            rw (e, choose)
              (ChosenFrom-cons locality offered blob p ps _
                (subst (Dials locality offered blob p) e dials)
                (choose-ChosenFrom locality offered blob ps))
      ]
