-- ===== src/Local/Tests.antt =====
-- The local transport of src/transport/local/local_provider.cpp on a concrete world.
use hux.Base.{if◌then◌else◌, ◌==◌, ℕ, ◌+◌, ◌≤◌, [], ◌∷◌, some, none, ◌≡◌, refl, arith}
use hux.Engine.Chunks.{write, SubOp}
use hux.Local.{Entry, LocalRegistry, publish, resolve, find_entry, World, submit}
use hux.Local.Registry.{IsRegistry, resolve-inside, publish-fresh}
use hux.Local.Submit.{Did, submit-Did}

abbrev pool : Entry
pool = record { key = 3; addr = 4096; length = 1024 }

abbrev registry : LocalRegistry
registry = record { entries = pool ∷ []; next = 4 }

abbrev inner : ℕ
inner = 4608

resolve-inside_example :
    (e : Entry) × ((find_entry registry.entries 3 ≡ some e)
      × ((inner ≡ inner) × ((e.addr ≤ 4608) × (4608 + 512 ≤ e.addr + e.length))))
resolve-inside_example = resolve-inside registry 3 4608 512 4608 (unfold resolve find_entry in refl)

abbrev added : LocalRegistry × ℕ
added = publish registry 8192 64

publish-fresh_example :
    (IsRegistry added.0)
    × ((find_entry registry.entries added.1 ≡ none)
        × (resolve added.0 4 8200 8
            ≡ (if added.1 == 4 then some 8200 else resolve registry 4 8200 8)))
publish-fresh_example = publish-fresh registry 8192 64 4 8200 8 (omega arith) (omega arith, tt)

abbrev world : World
world = record {
  registry = registry;
  memory = λ a. a;
  provider = record {
    local_keys = 3 ∷ [];
    completions = [];
    control = [];
    subops_posted = 0;
    subops_completed = 0;
    payload_bytes = 0;
  };
}

abbrev op_at : ℕ → SubOp
op_at address = record {
  kind = write;
  request = 7;
  sub_id = 0;
  local_addr = 64;
  local_key = 3;
  remote_addr = address;
  remote_key = 3;
  length = 512;
}

-- The second reaches past the region.
submit-Did_example :
    Did world (op_at 4096 ∷ op_at 5000 ∷ []) 0 (submit world (op_at 4096 ∷ op_at 5000 ∷ []))
submit-Did_example = submit-Did world (op_at 4096 ∷ op_at 5000 ∷ [])
