-- ===== src/Dht/Store.antt =====
-- `DhtStore` of phinet-core/src/dht.rs: values with the time they were stored at. A key is its
-- bytes. JSON values and descriptors are type parameters, with serde's two conversions.
use phinet.Prelude.{
  ℕ, ◌+◌, ◌-◌, ◌≤◌, ◌<◌, ◌≡◌, refl, List, ◌++◌, Option, none, some, Bool, arith, map, ltb,
  if◌then◌else◌, Bool-cases, inl, inr,
}
use phinet.Prelude.Eq.{◌==◌, nat_eq, list_eq}
use phinet.Prelude.Map.{
  lookup, insert, retain, lookup-insert, Keyed, keep_if, lookup-retain, Keyed-insert, Keyed-retain,
}
use phinet.Prelude.Word.{codes}
use phinet.Dht.{dht_value_ttl}

pub record Entry (Value : Type 0) : Type 0 where
  pub content : Value
  pub stored : ℕ

abbrev pub DhtStore : Type 0 → Type 0
DhtStore Value = List (List ℕ × Entry Value)

module _ {Value : Type 0} where
  -- `e.stored.elapsed() < DHT_VALUE_TTL`
  abbrev pub is_fresh : ℕ → Entry Value → Bool
  is_fresh now e = ltb (now - e.stored) dht_value_ttl

  unfoldable pub put : ℕ → List ℕ → Value → DhtStore Value → DhtStore Value
  put now key v s = insert key (record { content = v; stored = now }) s

  abbrev pub read_entry : ℕ → Option (Entry Value) → Option Value
  read_entry now none = none
  read_entry now (some e) = if is_fresh now e then some e.content else none

  unfoldable pub get : ℕ → List ℕ → DhtStore Value → Option Value
  get now key s = read_entry now (lookup key s)

  unfoldable pub keys : DhtStore Value → List (List ℕ)
  keys s = map (λ entry. entry.0) s

  unfoldable pub evict_expired : ℕ → DhtStore Value → DhtStore Value
  evict_expired now s = retain (λ key e. is_fresh now e) s

  -- A value is read back until its hour is over, then no more; other keys are untouched.
  pub get-put :
      (now later : ℕ) (key other : List ℕ) (v : Value) (s : DhtStore Value)
      → get later other (put now key v s) ≡ (
          if key == other
          then (if ltb (later - now) dht_value_ttl then some v else none)
          else get later other s)
  unfolding get put
  get-put now later key other v s = elim (Bool-cases (key == other)) [
    | inl same ↦ rw (lookup-insert key other _ s, same) refl
    | inr apart ↦ rw (lookup-insert key other _ s, apart) refl
  ]

  -- `evict_expired` only takes away what `get` would not return any more, then or later.
  pub get-evict_expired :
      (now later : ℕ) (key : List ℕ) (s : DhtStore Value)
      → now ≤ later
      → Keyed s
      → get later key (evict_expired now s) ≡ get later key s
  unfolding get evict_expired
  get-evict_expired now later key s h keyed =
      rw (lookup-retain (λ k e. is_fresh now e) key s keyed) (still_read (lookup key s))
    where
      still_read :
          (found : Option (Entry Value))
          → read_entry later (keep_if (is_fresh now) found) ≡ read_entry later found
      still_read none = refl
      still_read (some e) = ground arith

  pub put-Keyed :
      (now : ℕ) (key : List ℕ) (v : Value) (s : DhtStore Value) → Keyed s → Keyed (put now key v s)
  unfolding put
  put-Keyed now key v s keyed = Keyed-insert key _ s keyed

  pub evict_expired-Keyed : (now : ℕ) (s : DhtStore Value) → Keyed s → Keyed (evict_expired now s)
  unfolding evict_expired
  evict_expired-Keyed now s keyed = Keyed-retain _ s keyed

abbrev pub hs_key : List ℕ → List ℕ
hs_key hs_id = codes "hs:" ++ hs_id

-- Hidden-service descriptors, stored as JSON under a key of their own.
module _ {Value Descriptor : Type 0} where
  -- `to_value` is serde's conversion, which yields null where it fails.
  unfoldable pub put_hs :
      (Descriptor → Value)
      → (Descriptor → List ℕ)
      → ℕ
      → Descriptor
      → DhtStore Value
      → DhtStore Value
  put_hs to_value hs_id now desc s = put now (hs_key (hs_id desc)) (to_value desc) s

  abbrev pub and_then : (Value → Option Descriptor) → Option Value → Option Descriptor
  and_then f none = none
  and_then f (some v) = f v

  unfoldable pub get_hs :
      (Value → Option Descriptor) → ℕ → List ℕ → DhtStore Value → Option Descriptor
  get_hs from_value now hs_id s = and_then from_value (get now (hs_key hs_id) s)

  -- With a conversion that reads back what it writes, a descriptor is found under its service's
  -- id within the hour, and no other service's descriptor changes.
  pub get_hs-put_hs :
      (to_value : Descriptor → Value) (from_value : Value → Option Descriptor)
      (hs_id : Descriptor → List ℕ) (now later : ℕ) (desc : Descriptor) (other : List ℕ)
      (s : DhtStore Value)
      → from_value (to_value desc) ≡ some desc
      → later < now + dht_value_ttl
      → get_hs from_value later other (put_hs to_value hs_id now desc s)
        ≡ (if hs_id desc == other then some desc else get_hs from_value later other s)
  unfolding get_hs put_hs
  get_hs-put_hs to_value from_value hs_id now later desc other s reads in_time =
      ground
        (arith, get-put now later (hs_key (hs_id desc)) (hs_key other) (to_value desc) s, reads)
