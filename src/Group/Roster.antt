-- ===== src/Group/Roster.antt =====
-- The three collections that a group keeps of its members, JoinOrder, Members and joined, and what
-- each kind of change to them preserves.
use pocketkafka.Prelude.{
  ℕ, suc, ◌≤◌, drop, Bool-cases, inl, inr, ◌==◌, ◌≡◌, ap, sym, ◌∙◌, true, false, some, List, [],
  ◌∷◌, ◌++◌, arith, Bytes, bytes_eq, beq→eq,
}
use pocketkafka.Prelude.Dict.{
  Dict, get, has, put, keys, elem, add, without, remove_all, IsUnique, get-put, keys-put,
  keys-remove_all, get-remove_all, without-IsUnique, elem-without, has-get, has-keys, elem-add,
  elem-append, add-IsUnique, has-put, has-remove_all, IsUnique-append_one,
}
use pocketkafka.Prelude.Subset.{IsSubset}
use pocketkafka.Prelude.Decimal.{decimal-injective}
use pocketkafka.Group.{Member}
use pocketkafka.Group.Join.{member_name}

-- The order holds the members' identifiers, each once; `joined` holds some of them, each once; and
-- the manager's counter, which stands at `seq`, has issued every identifier.
pub record IsRoster (seq : ℕ) (order : List Bytes) (members : Dict Bytes Member)
    (joined : List Bytes) : Type 0 where
  pub ordered : order ≡ keys members
  pub unique : IsUnique (keys members)
  pub named : (k : Bytes) (m : Member) → get members k ≡ some m → m.id ≡ k
  pub joined_unique : IsUnique joined
  pub joined_subset : IsSubset joined (keys members)
  pub issued : (k : Bytes) → has members k ≡ true → (n : ℕ) × (n ≤ seq) × (k ≡ member_name n)

pub member_name-injective : (m n : ℕ) → member_name m ≡ member_name n → m ≡ n
unfolding member_name
member_name-injective m n h = decimal-injective m n (ap (drop 12) h)

-- The next identifier is new.
pub next_name-fresh :
    {seq : ℕ} {order : List Bytes} {members : Dict Bytes Member} {joined : List Bytes}
    → IsRoster seq order members joined
    → has members (member_name (suc seq)) ≡ false
next_name-fresh {seq} {members = members} r =
    elim (Bool-cases (has members (member_name (suc seq)))) [
      | inr e ↦ e
      | inl e ↦
          let (n, le, p) = r.issued _ e in
          absurd (omega (arith, member_name-injective (suc seq) n p))
    ]

module _ {seq : ℕ} {order : List Bytes} {members : Dict Bytes Member} {joined : List Bytes} where
  pub IsRoster-unjoined : IsRoster seq order members joined → IsRoster seq order members []
  unfolding elem
  IsRoster-unjoined r = record {
    ordered = r.ordered;
    unique = r.unique;
    named = r.named;
    joined_unique = tt;
    joined_subset = record { at = λ k m. ground arith };
    issued = r.issued;
  }

  pub IsRoster-remove_all :
      (dead : List Bytes)
      → IsRoster seq order members joined
      → IsRoster seq (without order dead) (remove_all members dead) (without joined dead)
  IsRoster-remove_all dead r = record {
    ordered = ap (λ o. without o dead) r.ordered ∙ sym (keys-remove_all members dead);
    unique = rw (keys-remove_all members dead) (without-IsUnique (keys members) dead r.unique);
    named = λ k m. ground (arith, get-remove_all members dead k, r.named k m);
    joined_unique = without-IsUnique joined dead r.joined_unique;
    joined_subset = record {
      at = λ k m. rw (keys-remove_all members dead) (
          ground (
            arith,
            elem-without k joined dead,
            elem-without k (keys members) dead,
            r.joined_subset.at k,
          ));
    };
    issued = λ k h. r.issued k (ground (arith, has-remove_all members dead k));
  }

  -- An absent member goes; all that have joined stay.
  pub IsRoster-expire :
      IsRoster seq order members joined
      → IsRoster seq
          (without order (without (keys members) joined))
          (remove_all members (without (keys members) joined))
          joined
  IsRoster-expire r = record {
    ordered =
        ap (λ o. without o (without (keys members) joined)) r.ordered
        ∙ sym (keys-remove_all members _);
    unique = rw (keys-remove_all members _) (without-IsUnique (keys members) _ r.unique);
    named = λ k m.
        ground (arith, get-remove_all members (without (keys members) joined) k, r.named k m);
    joined_unique = r.joined_unique;
    joined_subset = record {
      at = λ k m. rw (keys-remove_all members _) (
          ground (
            arith,
            elem-without k (keys members) (without (keys members) joined),
            elem-without k (keys members) joined,
            r.joined_subset.at k,
          ));
    };
    issued = λ k h.
        r.issued k (ground (arith, has-remove_all members (without (keys members) joined) k));
  }

  pub IsRoster-put :
      (k : Bytes) (m m' : Member)
      → get members k ≡ some m
      → m'.id ≡ k
      → IsRoster seq order members joined
      → IsRoster seq order (put members k m') joined
  IsRoster-put k m m' h n r =
      let same : keys (put members k m') ≡ keys members =
        ground (arith, keys-put members k m', has-get members k) in
      record {
        ordered = r.ordered ∙ sym same;
        unique = rw same r.unique;
        named = λ j v. ground (arith, get-put members k j m', r.named j v, beq→eq k j);
        joined_unique = r.joined_unique;
        joined_subset = record { at = λ j h. rw same (r.joined_subset.at j h) };
        issued = λ j there.
            r.issued j (ground (arith, has-put members k j m', has-get members k, beq→eq k j));
      }

  -- A new member comes under the next identifier.
  pub IsRoster-put_new :
      (m : Member)
      → m.id ≡ member_name (suc seq)
      → IsRoster seq order members joined
      → IsRoster
          (suc seq)
          (order ++ member_name (suc seq) ∷ [])
          (put members (member_name (suc seq)) m)
          joined
  IsRoster-put_new m n r =
      let k : Bytes = member_name (suc seq) in
      let h : has members k ≡ false = next_name-fresh r in
      let grown : keys (put members k m) ≡ keys members ++ k ∷ [] =
        ground (arith, keys-put members k m) in
      record {
        ordered = ap (λ o. o ++ k ∷ []) r.ordered ∙ sym grown;
        unique =
            rw grown (IsUnique-append_one k (keys members) (sym (has-keys members k) ∙ h) r.unique);
        named = λ j v. ground (arith, get-put members k j m, r.named j v, beq→eq k j);
        joined_unique = r.joined_unique;
        joined_subset = record {
          at = λ j h.
              rw grown
                (ground (arith, elem-append j (keys members) (k ∷ []), r.joined_subset.at j h));
        };
        issued = λ j e. elim (Bool-cases (k == j)) [
          | inl same ↦ (suc seq, omega arith, sym (beq→eq k j same))
          | inr other ↦
              let (i, le, p) = r.issued j (ground (arith, has-put members k j m)) in
              (i, omega arith, p)
        ];
      }

  pub IsRoster-add :
      (k : Bytes)
      → has members k ≡ true
      → IsRoster seq order members joined
      → IsRoster seq order members (add joined k)
  IsRoster-add k h r = record {
    ordered = r.ordered;
    unique = r.unique;
    named = r.named;
    joined_unique = add-IsUnique k joined r.joined_unique;
    joined_subset = record {
      at = λ j e.
          ground (arith, elem-add j k joined, r.joined_subset.at j, beq→eq k j, has-keys members k);
    };
    issued = r.issued;
  }
