-- ===== src/GuardSample/Tests.antt =====
-- A sample that grows, and the guards it prefers.
use phinet.Prelude.{◌+◌, ◌*◌, ◌≡◌, refl, List, [], ◌∷◌, none, String, arith}
use phinet.GuardSample.{
  SampledGuard, SampledSet, maybe_extend, primary, expire, confirm, stamp_first, is_expired,
  is_live, has_guard,
}
use phinet.Prelude.Order.{sort_by_key}
use phinet.GuardSample.History.{
  SampleEvent, extended, confirmed, expired, has_since, Keeps, sample_run, sample_run-Keeps,
}

abbrev old : SampledGuard
old = record { node_id_hex = "aa"; added = 100; confirmed_at = none }

abbrev one_guard : SampledSet
one_guard = record { guards = old ∷ [] }

abbrev as_listed : List String → List String
as_listed ids = ids

abbrev months : List SampleEvent
months =
    extended as_listed ("bb" ∷ "aa" ∷ []) ("bb" ∷ []) 500
    ∷ confirmed "bb" 600
    ∷ expired (100 + 120 * 24 * 3600)
    ∷ []

primary_test : primary ("aa" ∷ "bb" ∷ []) (sample_run months one_guard) ≡ "bb" ∷ "aa" ∷ []
unfolding primary sample_run sort_by_key expire confirm stamp_first maybe_extend is_expired is_live
    has_guard
primary_test = refl

sample_run-Keeps_example : Keeps "aa" 100 (sample_run months one_guard)
unfolding has_since
sample_run-Keeps_example =
    sample_run-Keeps "aa" 100 months one_guard (omega arith, (tt, (omega arith, tt)))
      (record { small = omega arith; there = refl })
