-- ===== src/Offsets/Snapshots.antt =====
-- What a compaction leaves on disk, at each of its two writes (internal/coordinator/offset_store.go).
use mathlib.Core.Option
use pocketkafka.Prelude.{ℕ, ◌≡◌, refl, ap, ◌∙◌, Option, none, some, Bytes, bytes_eq, nat_eq}
use pocketkafka.Prelude.Dict.{get, map_values, get-map_values}
use pocketkafka.Offsets.{Table, Topics, Parts, or_new, fetch, gob_offset, gob_table}

get_parts :
    (o : Option Parts) (p : ℕ)
    → get (or_new (Option.map (map_values gob_offset) o)) p
      ≡ Option.map gob_offset (get (or_new o) p)
unfolding get
get_parts none p = refl
get_parts (some d) p = get-map_values gob_offset d p

get_topics :
    (o : Option Topics) (t : Bytes)
    → get (or_new (Option.map (map_values (map_values gob_offset)) o)) t
      ≡ Option.map (map_values gob_offset) (get (or_new o) t)
unfolding get
get_topics none t = refl
get_topics (some d) t = get-map_values (map_values gob_offset) d t

pub fetch-gob_table :
    (table : Table) (g t : Bytes) (p : ℕ)
    → fetch (gob_table table) g t p ≡ Option.map gob_offset (fetch table g t p)
unfolding fetch gob_table
fetch-gob_table table g t p =
    ap (λ (o : Option Topics). get (or_new (get (or_new o) t)) p)
      (get-map_values (map_values (map_values gob_offset)) table g)
    ∙ ap (λ (o : Option Parts). get (or_new o) p) (get_topics (get table g) t)
    ∙ get_parts (get (or_new (get table g)) t) p
