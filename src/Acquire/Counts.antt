-- ===== src/Acquire/Counts.antt =====
-- src/node_state/mod.rs: the effects of `get_instance_for_model` that take or give something.
use llamesh.Prelude.{◌≡◌, refl, Bool, true, false, ◌||◌, List, [], ◌∷◌, arith, count_by}
use llamesh.Acquire.{
  Effect, receives_token, releases_token, joins_queue, leaves_queue, takes_slot, releases_slot,
}

abbrev pub is_receipt : Effect → Bool
is_receipt receives_token = true
is_receipt e = false

abbrev pub is_return : Effect → Bool
is_return releases_token = true
is_return e = false

abbrev pub is_join : Effect → Bool
is_join (joins_queue token) = true
is_join e = false

abbrev pub is_leave : Effect → Bool
is_leave (leaves_queue token) = true
is_leave e = false

abbrev pub is_take : Effect → Bool
is_take takes_slot = true
is_take e = false

abbrev pub is_give : Effect → Bool
is_give releases_slot = true
is_give e = false

-- Effects that neither take nor give anything.
abbrev pub is_counted : Effect → Bool
is_counted e = is_receipt e || is_return e || is_join e || is_leave e || is_take e || is_give e

abbrev pub IsNeutral : List Effect → Type 0
IsNeutral es = count_by is_counted es ≡ 0

pub record Uncounted (es : List Effect) : Type 0 where
  pub receipts : count_by is_receipt es ≡ 0
  pub returns : count_by is_return es ≡ 0
  pub joins : count_by is_join es ≡ 0
  pub leaves : count_by is_leave es ≡ 0
  pub takes : count_by is_take es ≡ 0
  pub gives : count_by is_give es ≡ 0

pub uncounted : (es : List Effect) → IsNeutral es → Uncounted es
uncounted [] n = record {
  receipts = refl;
  returns = refl;
  joins = refl;
  leaves = refl;
  takes = refl;
  gives = refl;
}
uncounted (e ∷ es) n =
    let u = uncounted es (ground (arith, n)) in
    record {
      receipts = ground (arith, n, u.receipts);
      returns = ground (arith, n, u.returns);
      joins = ground (arith, n, u.joins);
      leaves = ground (arith, n, u.leaves);
      takes = ground (arith, n, u.takes);
      gives = ground (arith, n, u.gives);
    }
