-- ===== src/Simulation/World/Tests.antt =====
-- A world of two tables of numbers.
use atlas_engine.Base.{ℕ, ◌≡◌, refl, some, List, [], ◌∷◌, ◌==◌, if◌then◌else◌}
use atlas_engine.Base.OrderedMap as OrderedMap
use atlas_engine.Base.OrderedMap.{put}
use atlas_engine.Core.Error.{ok}
use atlas_engine.Core.Hash.{hash_string}
use atlas_engine.Simulation.World.{
  table_id, is_nameless, find, lower_bound, insert_at, add_table, table,
}
use atlas_engine.Simulation.World.Ordered.{Tables, world_of}
use atlas_engine.Simulation.World.Registry.{
  register, represented, both, add_table-register, table-add_table, add_table_comm,
}

abbrev units : List ℕ
units = 117 ∷ []

abbrev walls : List ℕ
walls = 119 ∷ []

abbrev none_yet : Tables ℕ
none_yet = []

add_table-register_example :
    add_table (world_of none_yet) units (some 4) ≡ represented (register none_yet units (some 4))
add_table-register_example = add_table-register none_yet units (some 4) tt

abbrev with_units : Tables ℕ
with_units = put (table_id units) (units, 4) none_yet

add_units : add_table (world_of none_yet) units (some 4) ≡ ok (table_id units, world_of with_units)
unfolding register OrderedMap.find is_nameless
add_units = add_table-register none_yet units (some 4) tt

table-add_table_example :
    table (world_of with_units) 7
    ≡ (if table_id units == 7 then some 4 else table (world_of none_yet) 7)
table-add_table_example = table-add_table none_yet units 4 7 tt add_units

add_both :
    both (world_of none_yet) units 4 walls 6
    ≡ ok (world_of (put (table_id walls) (walls, 6) with_units))
unfolding add_table find is_nameless lower_bound insert_at table_id hash_string put
add_both = refl

add_table_comm_example :
    both (world_of none_yet) walls 6 units 4
    ≡ ok (world_of (put (table_id walls) (walls, 6) with_units))
add_table_comm_example = add_table_comm none_yet units walls 4 6 tt add_both
