-- ===== src/Engine/Peering.antt =====
-- The choosing half of `EngineImpl::add_peer`, and `suits`, in src/core/engine_impl.cpp: which
-- transports carry a peer's transfers. A name is the list of its bytes.
use hux.Base.{
  ℕ, ◌==◌, if◌then◌else◌, Bool, true, false, ◌||◌, not, List, [], ◌∷◌, ◌++◌, Option, none, some,
  eq_list, All, All-append, ◌≡◌, arith, Bool-cases, inl, inr,
}
use hux.Types.{Status, Result, done, err, Result-cases}
use hux.Control.Identity.{Locality, same_process, same_host}
use hux.Engine.Metadata.{Offer}

abbrev pub eq_name : List ℕ → List ℕ → Bool
eq_name a b = eq_list ◌==◌ a b

abbrev pub ipc : List ℕ
ipc = 105 ∷ 112 ∷ 99 ∷ []

abbrev pub local : List ℕ
local = 108 ∷ 111 ∷ 99 ∷ 97 ∷ 108 ∷ []

abbrev pub ucx : List ℕ
ucx = 117 ∷ 99 ∷ 120 ∷ []

abbrev is_near : Locality → Bool
is_near same_host = true
is_near same_process = true
is_near _ = false

abbrev is_same_process : Locality → Bool
is_same_process same_process = true
is_same_process _ = false

-- Whether a transport is usable for a peer in that place.
unfoldable pub suits : List ℕ → Locality → Bool
suits provider locality =
    if eq_name provider ipc
    then is_near locality
    else if eq_name provider local
    then is_same_process locality
    else true

-- The name up to the first '#'.
unfoldable pub family : List ℕ → List ℕ
family [] = []
family (c ∷ cs) = if c == 35 then [] else c ∷ family cs

-- The first offer under that name.
unfoldable pub offer_of : List Offer → List ℕ → Option (List ℕ)
offer_of [] name = none
offer_of (o ∷ os) name = if eq_name o.name name then some o.meta else offer_of os name

-- A transport of this engine: which of them it is, its name, and what dialling with it gives.
pub record Candidate (C : Type 0) : Type 0 where
  pub number : ℕ
  pub name : List ℕ
  pub connect : List ℕ → Result C

pub record Lane (C : Type 0) : Type 0 where
  pub provider : Candidate C
  pub conn : C

module _ {C : Type 0} where
  -- What `add_peer` would dial a transport with: a peer that offers nothing gave a bare blob.
  unfoldable pub dialled_with : Locality → List Offer → List ℕ → Candidate C → Option (List ℕ)
  dialled_with locality offered blob p =
      if not (suits p.name locality)
      then none
      else elim offered [ [] ↦ some blob | (o ∷ os) ↦ offer_of (o ∷ os) p.name ]

  -- In local preference order, the first that suits and that the peer offers too.
  unfoldable pub choose :
      Locality → List Offer → List ℕ → List (Candidate C) → Option (Candidate C × List ℕ)
  choose locality offered blob [] = none
  choose locality offered blob (p ∷ ps) = elim (dialled_with locality offered blob p) [
    | some meta ↦ some (p, meta)
    | none ↦ choose locality offered blob ps
  ]

  abbrev dial : Candidate C → Option (List ℕ) → List (Lane C)
  dial p none = []
  dial p (some meta) = elim (p.connect meta) [
    | err s ↦ []
    | done conn ↦ record { provider = p; conn = conn } ∷ []
  ]

  -- Every sibling of the chosen one; a lane that will not connect is left out.
  unfoldable pub sibling_lanes :
      Locality → List Offer → Candidate C → List (Candidate C) → List (Lane C)
  sibling_lanes locality offered chosen [] = []
  sibling_lanes locality offered chosen (p ∷ ps) =
      let rest = sibling_lanes locality offered chosen ps in
      if p.number == chosen.number
      then rest
      else if not (suits p.name locality) || not (eq_name (family p.name) (family chosen.name))
      then rest
      else dial p (offer_of offered p.name) ++ rest

  -- The lanes of a new peer.
  unfoldable pub lanes_to :
      Locality → List Offer → List ℕ → List (Candidate C) → Result (List (Lane C))
  lanes_to locality offered blob providers = elim (choose locality offered blob providers) [
    | none ↦ err Status.unsupported
    | some (p, meta) ↦ elim (p.connect meta) [
      | err s ↦ err s
      | done conn ↦
          done (record { provider = p; conn = conn } ∷ sibling_lanes locality offered p providers)
    ]
  ]

  -- A lane over a transport that suits where the peer is, of one family with the chosen one.
  pub IsSibling : Locality → Candidate C → Lane C → Type 0
  IsSibling locality chosen l =
      (suits l.provider.name locality ≡ true)
      × (eq_name (family l.provider.name) (family chosen.name) ≡ true)

  dial-IsSibling :
      (locality : Locality) (chosen p : Candidate C) (meta : Option (List ℕ))
      → suits p.name locality ≡ true
      → eq_name (family p.name) (family chosen.name) ≡ true
      → All (IsSibling locality chosen) (dial p meta)
  unfolding IsSibling
  dial-IsSibling locality chosen p none h k = tt
  dial-IsSibling locality chosen p (some meta) h k = elim (Result-cases (p.connect meta)) [
    | inl (conn, e) ↦ rw (e, dial) ((h, k), tt)
    | inr (s, e) ↦ rw (e, dial) tt
  ]

  -- Every further lane of a peer is over a transport that suits where the peer is and is of the
  -- family of the one chosen.
  sibling_lanes-IsSibling :
      (locality : Locality) (offered : List Offer) (chosen : Candidate C) (ps : List (Candidate C))
      → All (IsSibling locality chosen) (sibling_lanes locality offered chosen ps)
  unfolding sibling_lanes
  sibling_lanes-IsSibling locality offered chosen [] = tt
  sibling_lanes-IsSibling locality offered chosen (p ∷ ps) =
      let rest = sibling_lanes-IsSibling locality offered chosen ps in
      elim (Bool-cases (p.number == chosen.number)) [
        | inl same ↦ rw (same, sibling_lanes) rest
        | inr other ↦
            elim (Bool-cases
              (not (suits p.name locality) || not (eq_name (family p.name) (family chosen.name)))) [
                | inl unfit ↦ rw (other, unfit, sibling_lanes) rest
                | inr fit ↦
                    rw (other, fit, sibling_lanes)
                      (All-append (IsSibling locality chosen) _ _
                        (dial-IsSibling locality chosen p _ (ground arith) (ground arith)) rest)
              ]
      ]
