-- ===== src/Local/Registry.antt =====
-- What the registry of src/transport/local/local_provider.cpp lets through.
use hux.Base.{
  leb, ◌%◌, ◌^◌, ◌&&◌, Bool-cases, inl, inr, ℕ, ◌+◌, ◌≤◌, ◌<◌, ◌==◌, if◌then◌else◌, List, [], ◌∷◌,
  length, none, some, All, ◌≡◌, refl, ◌∙◌, arith, Option-cases, inl, inr,
}
use hux.Local.{Entry, LocalRegistry, publish, withdraw, without, find_entry, resolve_in, resolve}

-- An entry of the registry under that key.
abbrev pub Holds : List Entry → ℕ → Entry → Type 0
Holds es key e = (find_entry es key ≡ some e) × (e.key ≡ key)

-- What the registry resolves is the very address asked for, and the whole range lies, on plain
-- numbers, in the memory published under that key.
pub resolve-inside :
    (r : LocalRegistry) (key address length there : ℕ)
    → resolve r key address length ≡ some there
    → (e : Entry) × ((find_entry r.entries key ≡ some e)
        × ((there ≡ address) × ((e.addr ≤ address) × (address + length ≤ e.addr + e.length))))
unfolding resolve
resolve-inside r key address length there h = elim (Option-cases (find_entry r.entries key)) [
  | inl n ↦ cc (rw (n, resolve) at h)
  | inr (e, f) ↦ (e, (f, resolved e address length there (rw (f, resolve) at h)))
]
  where
    resolved :
        (e : Entry) (address length there : ℕ)
        → resolve_in e address length ≡ some there
        → (there ≡ address) × ((e.addr ≤ address) × (address + length ≤ e.addr + e.length))
    resolved e address length there h = ground arith

find_entry-without :
    (es : List Entry) (key other : ℕ)
    → find_entry (without es key) other ≡ (if key == other then none else find_entry es other)
unfolding find_entry
find_entry-without [] key other = ground arith
find_entry-without (e ∷ es) key other = ground (arith, find_entry-without es key other)

-- Every key handed out is below the next one.
abbrev pub IsRegistry : LocalRegistry → Type 0
IsRegistry r = All (λ (e : Entry). e.key < r.next) r.entries

find_entry-fresh :
    (es : List Entry) (n key : ℕ)
    → All (λ (e : Entry). e.key < n) es
    → n ≤ key
    → find_entry es key ≡ none
unfolding find_entry
find_entry-fresh [] n key h k = refl
find_entry-fresh (e ∷ es) n key (h, hs) k = ground (arith, find_entry-fresh es n key hs k)

weaken :
    (es : List Entry) (n m : ℕ)
    → n ≤ m
    → All (λ (e : Entry). e.key < n) es
    → All (λ (e : Entry). e.key < m) es
weaken [] n m le h = tt
weaken (e ∷ es) n m le (h, hs) = (omega arith, weaken es n m le hs)

-- Where every key handed out is below the next one, and that is below 2^64 - 1, publishing keeps
-- every key below the next, and hands out a key that nothing has, which reaches exactly the ranges
-- inside the memory published, while every other key reaches what it did.
pub publish-fresh :
    (r : LocalRegistry) (addr size key address length : ℕ)
    → r.next + 1 < 2 ^ 64
    → IsRegistry r
    → let (r', new) = publish r addr size in
      (IsRegistry r')
      × ((find_entry r.entries new ≡ none)
          × (resolve r' key address length ≡ (
              if new == key
              then if leb addr address && leb (address + length) (addr + size)
                then some address
                else none
              else resolve r key address length)))
unfolding publish resolve find_entry
publish-fresh r addr size key address length small v =
    let grown : (r.next + 1) % 2 ^ 64 ≡ r.next + 1 = omega (arith, small) in
    (
      (omega (arith, grown), weaken r.entries r.next _ (omega (arith, grown)) v),
      (find_entry-fresh r.entries r.next r.next v (omega arith), ground arith),
    )

resolve-find :
    (r s : LocalRegistry) (key address length : ℕ)
    → find_entry s.entries key ≡ find_entry r.entries key
    → resolve s key address length ≡ resolve r key address length
unfolding resolve
resolve-find r s key address length e = rw (e, resolve) refl

resolve-none :
    (r : LocalRegistry) (key address length : ℕ)
    → find_entry r.entries key ≡ none
    → resolve r key address length ≡ none
unfolding resolve
resolve-none r key address length e = rw (e, resolve) refl

-- Once a key is withdrawn it reaches nothing, and every other key reaches what it did.
withdraw-revokes :
    (r : LocalRegistry) (key other address length : ℕ)
    → resolve (withdraw r key) other address length
      ≡ (if key == other then none else resolve r other address length)
unfolding withdraw
withdraw-revokes r key other address length = elim (Bool-cases (key == other)) [
  | inl same ↦
      rw same (
        resolve-none _ other address length (find_entry-without r.entries key other ∙ ground arith))
  | inr differs ↦ rw differs (
      resolve-find r _ other address length (find_entry-without r.entries key other ∙ ground arith))
]
