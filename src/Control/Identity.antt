-- ===== src/Control/Identity.antt =====
-- src/control/identity.h and identity.cpp: who an engine is, and how far away another one is.
-- `read_host_id`, `getpid` and the engine counter are not modelled: an identity is three uint64s.
use hux.Base.{
  ℕ, ◌+◌, ◌^◌, ◌<◌, ◌==◌, ltb, if◌then◌else◌, Bool, ◌&&◌, not, List, ◌++◌, drop, length, ◌≡◌, ◌↔◌,
  arith,
}
use hux.Types.{Status, Result, done, err}
use hux.Control.Bytes.{put_u64, get_u64, get_u64-put_u64}

pub record Identity : Type 0 where
  pub host : ℕ
  pub process : ℕ
  pub engine : ℕ

abbrev pub identity_bytes : ℕ
identity_bytes = 24

abbrev pub eq_identity : Identity → Identity → Bool
eq_identity a b = a.host == b.host && a.process == b.process && a.engine == b.engine

pub data Locality : Type 0 where
  same_engine same_process same_host remote : Locality

unfoldable pub locality_of : Identity → Identity → Locality
locality_of a b =
    if not (a.host == b.host)
    then remote
    else if not (a.process == b.process)
    then same_host
    else if not (a.engine == b.engine)
    then same_process
    else same_engine

-- Appends to `out`.
unfoldable pub encode_identity : Identity → List ℕ → List ℕ
encode_identity id out = out ++ (put_u64 id.host ++ (put_u64 id.process ++ put_u64 id.engine))

unfoldable pub decode_identity : List ℕ → ℕ → Result Identity
decode_identity bytes offset =
    let p = drop offset bytes in
    if ltb (length bytes) (offset + identity_bytes)
    then err Status.invalid_argument
    else done
        (record { host = get_u64 p; process = get_u64 (drop 8 p); engine = get_u64 (drop 16 p) })

-- Its three numbers fit their fields.
pub record IsIdentity (id : Identity) : Type 0 where
  pub host_fits : id.host < 2 ^ 64
  pub process_fits : id.process < 2 ^ 64
  pub engine_fits : id.engine < 2 ^ 64

-- How far away an engine is does not depend on which side asks.
pub locality_of_comm : (a b : Identity) → locality_of a b ≡ locality_of b a
unfolding locality_of
locality_of_comm a b = ground arith

-- An engine is itself exactly to itself.
pub locality_of-same_engine : (a b : Identity) → (locality_of a b ≡ same_engine) ↔ (a ≡ b)
unfolding locality_of
locality_of-same_engine a b = ground arith

-- An engine on the same host as one engine of a process, but in another process, is so for every
-- engine of that process.
locality_of_process :
    (a b c : Identity)
    → locality_of a b ≡ same_process
    → locality_of b c ≡ same_host
    → locality_of a c ≡ same_host
unfolding locality_of
locality_of_process a b c h k = ground arith

-- The three numbers at the front of a list.
pub identity_front :
    (id : Identity) (rest : List ℕ)
    → IsIdentity id
    → let p = put_u64 id.host ++ (put_u64 id.process ++ (put_u64 id.engine ++ rest)) in
      (get_u64 p ≡ id.host) × (get_u64 (drop 8 p) ≡ id.process) × (get_u64 (drop 16 p) ≡ id.engine)
unfolding put_u64
identity_front id rest h = (
  get_u64-put_u64 id.host _ h.host_fits,
  get_u64-put_u64 id.process _ h.process_fits,
  get_u64-put_u64 id.engine rest h.engine_fits,
)
