-- ===== src/Server/Destroys.antt =====
-- The destructions that one client has not acknowledged (`DestroyQueue` in
-- src/server/server_client_replicator.cpp).
pub mod Queue
mod Tests
use ashiato_sync.Base.{
  ℕ, Bool, true, false, ◌&&◌, List, [], ◌∷◌, ◌++◌, Option, none, some, ◌==◌, leb, if◌then◌else◌,
  find, erase_first, any,
}
use ashiato_sync.Server.NetworkIds.{NetworkIds, free}

pub record ClientDestroyState : Type 0 where
  pub entity : ℕ
  pub frame : ℕ
  pub reset_epoch : ℕ
  pub network_id : ℕ
  pub network_version : ℕ

pub same_destroy : ℕ → ℕ → ClientDestroyState → Bool
same_destroy entity network_id d = d.entity == entity && d.network_id == network_id

pub enqueue :
    List ClientDestroyState
    → (entity frame network_id network_version : ℕ) → List ClientDestroyState
unfolding same_destroy
enqueue pending entity frame network_id network_version =
    if any (same_destroy entity network_id) pending
    then pending
    else pending
      ++ (record {
        entity = entity;
        frame = frame;
        reset_epoch = 0;
        network_id = network_id;
        network_version = network_version;
      }
          ∷ [])

-- The test of `acknowledge` and of `contains_ack_record`.
pub acknowledges : ℕ → ℕ → ClientDestroyState → Bool
acknowledges entity frame d = d.entity == entity && leb frame d.frame

-- The destruction is done with, and its network id goes back to the table.
pub acknowledge :
    List ClientDestroyState
    → NetworkIds
    → (entity frame : ℕ) → Bool × List ClientDestroyState × NetworkIds
acknowledge pending ids entity frame = elim (find (acknowledges entity frame) pending) [
  | none ↦ (false, pending, ids)
  | some found ↦ (true, erase_first (acknowledges entity frame) pending, free ids found.network_id)
]

pub contains_ack_record : List ClientDestroyState → (entity frame : ℕ) → Bool
contains_ack_record pending entity frame = any (acknowledges entity frame) pending
