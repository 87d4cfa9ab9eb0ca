-- ===== src/Server/NetworkIds.antt =====
-- The table of network ids of one client (`ServerClientReplicator::NetworkIds` in
-- src/server/server_client_replicator.cpp): ids are handed out, put aside while the destruction of
-- their entity waits for its acknowledgement, and recycled through a free list that is threaded
-- through the entries.
pub mod Invariant
pub mod Preserve
pub mod Allocate
pub mod Recycle
pub mod Tests
use ashiato_sync.Base.{
  ℕ, ◌+◌, ◌-◌, ◌%◌, ◌^◌, Bool, true, false, ◌&&◌, not, List, [], ◌∷◌, ◌++◌, Option, none, some,
  ◌==◌, ltb, if◌then◌else◌, length, get_elem?, get_or, set,
}

pub record Entry : Type 0 where
  pub replicated_index_or_next_free_network_id : ℕ
  pub version : ℕ
  pub active : Bool
  pub pending_destroy : Bool

pub record NetworkIds : Type 0 where
  pub entries : List Entry
  pub free_network_id : ℕ

abbrev pub max_client_local_wire_network_id : ℕ
max_client_local_wire_network_id = 2 ^ 20 - 1

abbrev pub invalid_replicated_index_or_free_network_id : ℕ
invalid_replicated_index_or_free_network_id = 2 ^ 32 - 1

-- `Entry{}`.
abbrev pub blank : Entry
blank = record {
  replicated_index_or_next_free_network_id = 0;
  version = 0;
  active = false;
  pending_destroy = false;
}

abbrev pub no_ids : NetworkIds
no_ids = record { entries = []; free_network_id = 0 }

-- Entry 0 is never handed out.
unfoldable pub try_get : NetworkIds → ℕ → Option Entry
try_get ids network_id =
    if not (network_id == 0) && ltb network_id (length ids.entries)
    then get_elem? ids.entries network_id
    else none

-- `if (entries.empty()) entries.push_back(Entry{});`
pub reserve_zero : List Entry → List Entry
reserve_zero [] = blank ∷ []
reserve_zero (e ∷ es) = e ∷ es

reuse : NetworkIds → Entry → ℕ → ℕ × NetworkIds
reuse ids entry slot = (
  ids.free_network_id,
  record {
    entries = set ids.entries ids.free_network_id (record entry {
      replicated_index_or_next_free_network_id = slot;
      active = true;
      pending_destroy = false;
    });
    free_network_id = entry.replicated_index_or_next_free_network_id;
  },
)

-- `none` is the `std::length_error` of an exhausted id space.
append : NetworkIds → ℕ → Option (ℕ × NetworkIds)
append ids slot =
    if ltb max_client_local_wire_network_id (length ids.entries)
    then none
    else some (
      length ids.entries,
      record ids {
        entries =
            ids.entries
            ++ (record {
              replicated_index_or_next_free_network_id = slot;
              version = 1;
              active = true;
              pending_destroy = false;
            }
                ∷ []);
      },
    )

-- The part of `allocate_for` that works on the table.
pub allocate : NetworkIds → ℕ → Option (ℕ × NetworkIds)
unfolding reserve_zero reuse append
allocate given slot =
    let ids = record given { entries = reserve_zero given.entries } in
    if not (ids.free_network_id == 0)
    then some (reuse ids (get_or ids.entries ids.free_network_id blank) slot)
    else append ids slot

-- `++entry->version; if (entry->version == 0U) entry->version = 1U;`
pub next_version : ℕ → ℕ
next_version version = if (version + 1) % 2 ^ 32 == 0 then 1 else (version + 1) % 2 ^ 32

pub free : NetworkIds → ℕ → NetworkIds
unfolding next_version
free ids network_id = elim (try_get ids network_id) [
  | none ↦ ids
  | some entry ↦
      if entry.pending_destroy
      then record {
        entries = set ids.entries network_id (record {
          replicated_index_or_next_free_network_id = ids.free_network_id;
          version = next_version entry.version;
          active = false;
          pending_destroy = false;
        });
        free_network_id = network_id;
      }
      else ids
]

pub mark_pending_destroy : NetworkIds → ℕ → Bool × NetworkIds
mark_pending_destroy ids network_id = elim (try_get ids network_id) [
  | none ↦ (false, ids)
  | some entry ↦ (
    true,
    record ids {
      entries = set ids.entries network_id (record entry {
        replicated_index_or_next_free_network_id = invalid_replicated_index_or_free_network_id;
        active = false;
        pending_destroy = true;
      });
    },
  )
]
