-- ===== src/Manager/Listing.antt =====
-- What the listings of a group's offsets show (internal/coordinator/offset_store.go).
use pocketkafka.Prelude.{ℕ, ◌≡◌, refl, Option, none, some, [], ◌∷◌, Bytes, bytes_eq, nat_eq, arith}
use pocketkafka.Prelude.Dict.{get}
use pocketkafka.Offsets.{CommittedOffset, Parts, Topics, Table, or_new, fetch}
use pocketkafka.Manager.{offsets_of, topic_offsets, group_offsets}

abbrev pub offset_of : Option CommittedOffset → Option ℕ
offset_of none = none
offset_of (some off) = some off.offset

get-offsets_of : (ps : Parts) (p : ℕ) → get (offsets_of ps) p ≡ offset_of (get ps p)
unfolding get offsets_of
get-offsets_of [] p = refl
get-offsets_of ((q, off) ∷ ps) p = ground (arith, get-offsets_of ps p)

get-topic_offsets :
    (ts : Topics) (t : Bytes) (p : ℕ)
    → get (or_new (get (topic_offsets ts) t)) p ≡ offset_of (get (or_new (get ts t)) p)
unfolding get topic_offsets
get-topic_offsets [] t p = refl
get-topic_offsets ((u, ps) ∷ ts) t p = ground (arith, get-topic_offsets ts t p, get-offsets_of ps p)

-- The listing of a group's offsets shows for each partition the offset that a fetch answers, and none
-- where nothing has been committed.
pub group_offsets-fetch :
    (table : Table) (group topic : Bytes) (p : ℕ)
    → get (or_new (get (group_offsets table group) topic)) p ≡ offset_of (fetch table group topic p)
unfolding group_offsets fetch
group_offsets-fetch table group topic p = get-topic_offsets (or_new (get table group)) topic p
