-- ===== src/Backend/Resolver.antt =====
-- The resolver of control plane backends: src/proxy/src/backend/control_plane_resolver.rs. A channel
-- behind `Arc<RwLock<..>>` is the value in the map, and a write to it replaces that value.
pub mod Pick
mod Tests
use haentgl.Prelude.{
  ℕ, zero, suc, ◌+◌, ◌%◌, ◌^◌, Bool, true, false, Option, none, some, List, [], ◌∷◌, map, length,
  get_elem?, leb, ltb, if◌then◌else◌,
}
use haentgl.Extern.DashMap.{DashMap}

pub data CpChannelStatus : Type 0 where
  unavailable available : CpChannelStatus

-- The `Channel` of the tonic crate is a parameter.
pub record CpChannel (Channel : Type 0) : Type 0 where
  pub status : CpChannelStatus
  pub generation : ℕ
  pub channel : Channel
  pub backend_name : List ℕ
  pub service : List ℕ
  pub endpoint : List ℕ

abbrev pub is_available : CpChannelStatus → Bool
is_available available = true
is_available unavailable = false

module _ (Channel : Type 0) (maps : DashMap (List ℕ) (CpChannel Channel)) where
  pub record CpResolver : Type 0 where
    pub cp_backends : maps.Map
    pub pick_index : ℕ

  -- The filter of `get_cp_backend`.
  abbrev pub only_available : List (List ℕ × CpChannel Channel) → List (CpChannel Channel)
  only_available [] = []
  only_available ((name, c) ∷ rest) =
      let more = only_available rest in if is_available c.status then c ∷ more else more

  abbrev pub available_channels : CpResolver → List (CpChannel Channel)
  available_channels r = only_available (maps.entries r.cp_backends)

  -- `none` is the panic of `unwrap`.
  pub get_cp_backend : CpResolver → Option (CpChannel Channel) × CpResolver
  get_cp_backend r =
      let channels = available_channels r in
      let pick_index = (r.pick_index + 1) % 2 ^ 64 in
      let index = if leb (length channels) pick_index then 0 else pick_index in
      (get_elem? channels index, record r { pick_index = index })

  pub mark_backend_unavailable : List ℕ → CpResolver → CpResolver
  mark_backend_unavailable name r = elim (maps.get r.cp_backends name) [
    | none ↦ r
    | some c ↦ record r {
      cp_backends = maps.insert r.cp_backends name (record c { status = unavailable });
    }
  ]
