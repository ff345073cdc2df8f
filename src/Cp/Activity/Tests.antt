-- ===== src/Cp/Activity/Tests.antt =====
-- The activity window on concrete values.
use haentgl.Prelude.{ℕ, not, ◌≡◌, refl, none, []}
use haentgl.Extern.DashMap.{DashMap, Member}
use haentgl.Extern.DashMap.Assoc.{assoc_map}
use native.Mathlib.Decide.{ℕ_discrete}
use haentgl.Cp.Activity.{
  UserCom, UserActivityWindow, new_maps, put, get, freeze, switch_at, clean_inactive, put_at,
  set_table, table, collect,
}
use haentgl.Cp.Activity.Sequential.{InactiveEmpty, freeze-get, freeze-InactiveEmpty}
use haentgl.Cp.Activity.Race.{put-lost}

abbrev maps : DashMap ℕ UserCom
maps = assoc_map ℕ_discrete

abbrev query_value : UserCom
query_value = record { cluster = none; user = []; com_codes = []; com_ts = 7 }

abbrev one_put : UserActivityWindow maps
one_put = record { maps_ = put maps 5 query_value (new_maps maps); size = 112; count = 1 }

freeze-get_example : Member query_value (freeze maps one_put).0
unfolding put put_at get set_table table new_maps ℕ_discrete
freeze-get_example = freeze-get maps one_put 5 query_value refl

one_put-InactiveEmpty : InactiveEmpty maps one_put.maps_
unfolding put put_at set_table table new_maps
one_put-InactiveEmpty = λ k. refl

freeze-InactiveEmpty_example :
    (get maps 5 (freeze maps one_put).1.maps_ ≡ none)
    × InactiveEmpty maps (freeze maps one_put).1.maps_
    × ((freeze maps one_put).1.size ≡ 0)
freeze-InactiveEmpty_example = freeze-InactiveEmpty maps one_put 5 one_put-InactiveEmpty

put-lost_example :
    let s = one_put.maps_ in
    let idx = s.active_idx in
    let switched = (switch_at maps idx s).1 in
    let late = put_at maps idx 6 query_value switched in
    (clean_inactive maps late ≡ clean_inactive maps switched)
    × (maps.get (table maps (clean_inactive maps late) idx) 6 ≡ none)
    × (maps.get (table maps (clean_inactive maps late) (not idx)) 6
        ≡ maps.get (table maps s (not idx)) 6)
    × (Member query_value (collect maps idx late))
    × (collect maps idx switched ≡ collect maps idx s)
put-lost_example = put-lost maps one_put.maps_ 6 query_value
