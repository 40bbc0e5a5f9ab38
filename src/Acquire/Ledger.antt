-- ===== src/Acquire/Ledger.antt =====
-- src/node_state/mod.rs: what the loop of `get_instance_for_model` takes, it gives back.
use llamesh.Prelude.{
  ℕ, ◌+◌, ◌≡◌, inl, inr, refl, false, List, [], ◌∷◌, ◌++◌, arith, count_by, count_by-append,
  Bool-cases, if◌then◌else◌,
}
use llamesh.Acquire.{
  Effect, joins_queue, takes_slot, releases_slot, Locals, Turn, continues, acquired, fails_with,
  release_token, other,
}
use llamesh.Acquire.Counts.{
  is_receipt, is_return, is_join, is_leave, is_take, is_give, IsNeutral, uncounted,
}

module _ {A : Type 0} where
  abbrev pub held : Turn A → ℕ
  held (continues l) = if l.my_token then 1 else 0
  held acquired = 0
  held (fails_with e) = 0

  abbrev pub served : Turn A → ℕ
  served (continues l) = 0
  served acquired = 1
  served (fails_with e) = 0

  -- The permits, the queue entries and the slots of a run, with what was held before it and what it
  -- holds after.
  pub record IsSettled (before : ℕ) (effects : List Effect) (after : Turn A) : Type 0 where
    pub tokens : before + count_by is_receipt effects ≡ count_by is_return effects + held after
    pub entries : count_by is_join effects ≡ count_by is_leave effects + count_by is_receipt effects
    pub slots : count_by is_take effects ≡ count_by is_give effects + served after

  pub IsSettled-append :
      (before : ℕ) (es fs : List Effect) (between : Locals A) (after : Turn A)
      → IsSettled before es (continues between)
      → IsSettled (held (continues between)) fs after
      → IsSettled before (es ++ fs) after
  IsSettled-append before es fs between after s t = record {
    tokens = omega (
      arith,
      s.tokens,
      t.tokens,
      count_by-append is_receipt es fs,
      count_by-append is_return es fs,
    );
    entries = omega (
      arith,
      s.entries,
      t.entries,
      count_by-append is_receipt es fs,
      count_by-append is_join es fs,
      count_by-append is_leave es fs,
    );
    slots =
        omega
          (arith, s.slots, t.slots, count_by-append is_take es fs, count_by-append is_give es fs);
  }

  pub IsSettled-neutral :
      (before : ℕ) (es fs : List Effect) (after : Turn A)
      → IsNeutral es
      → IsSettled before fs after
      → IsSettled before (es ++ fs) after
  IsSettled-neutral before es fs after n s =
      let u = uncounted es n in
      record {
        tokens = omega (
          arith,
          s.tokens,
          u.receipts,
          u.returns,
          count_by-append is_receipt es fs,
          count_by-append is_return es fs,
        );
        entries = omega (
          arith,
          s.entries,
          u.receipts,
          u.joins,
          u.leaves,
          count_by-append is_receipt es fs,
          count_by-append is_join es fs,
          count_by-append is_leave es fs,
        );
        slots = omega (
          arith,
          s.slots,
          u.takes,
          u.gives,
          count_by-append is_take es fs,
          count_by-append is_give es fs,
        );
      }

  pub IsSettled-insert :
      (token : ℕ) (es fs : List Effect) (after : Turn A)
      → IsNeutral es
      → IsSettled 0 (joins_queue token ∷ fs) after
      → IsSettled 0 (joins_queue token ∷ es ++ fs) after
  IsSettled-insert token es fs after n s =
      let u = uncounted es n in
      record {
        tokens = omega (
          arith,
          s.tokens,
          u.receipts,
          u.returns,
          count_by-append is_receipt es fs,
          count_by-append is_return es fs,
        );
        entries = omega (
          arith,
          s.entries,
          u.receipts,
          u.joins,
          u.leaves,
          count_by-append is_receipt es fs,
          count_by-append is_join es fs,
          count_by-append is_leave es fs,
        );
        slots = omega (
          arith,
          s.slots,
          u.takes,
          u.gives,
          count_by-append is_take es fs,
          count_by-append is_give es fs,
        );
      }

  -- What a part of a turn returns, from locals that hold so many permits.
  abbrev pub Settles : ℕ → List Effect × Turn A → Type 0
  Settles before (es, t) = IsSettled before es t

  pub neutral-IsSettled :
      (before : ℕ) (es : List Effect) (after : Turn A)
      → before ≡ held after
      → served after ≡ 0
      → IsNeutral es
      → IsSettled before es after
  neutral-IsSettled before es after h s n =
      let u = uncounted es n in
      record {
        tokens = omega (arith, h, u.receipts, u.returns);
        entries = omega (arith, u.receipts, u.joins, u.leaves);
        slots = omega (arith, s, u.takes, u.gives);
      }

  -- The release of the permit, and an end that holds none.
  pub release_token-IsSettled :
      (l : Locals A) (after : Turn A)
      → held after ≡ 0
      → served after ≡ 0
      → IsSettled (held (continues l)) (release_token l) after
  release_token-IsSettled l after h s = elim (Bool-cases l.my_token) [
    | inl t ↦ rw t (record { tokens = omega (arith, h); entries = refl; slots = omega (arith, s) })
    | inr t ↦ rw t (record { tokens = omega (arith, h); entries = refl; slots = omega (arith, s) })
  ]

  -- The slot of a load that ends ready is the caller's; that of one that failed is released.
  pub taken-IsSettled :
      (before : ℕ) (es : List Effect)
      → IsSettled before es (fails_with other)
      → IsSettled before (takes_slot ∷ es) acquired
  taken-IsSettled before es s = record {
    tokens = omega (arith, s.tokens);
    entries = omega (arith, s.entries);
    slots = omega (arith, s.slots);
  }

  pub returned-IsSettled :
      (before : ℕ) (es fs : List Effect) (l : Locals A)
      → IsSettled before es (fails_with other)
      → IsNeutral fs
      → l.my_token ≡ false
      → IsSettled before ((takes_slot ∷ es) ++ (releases_slot ∷ fs)) (continues l)
  returned-IsSettled before es fs l s n e =
      let u = uncounted fs n in
      rw e (record {
        tokens = omega (
          arith,
          s.tokens,
          u.receipts,
          u.returns,
          count_by-append is_receipt es (releases_slot ∷ fs),
          count_by-append is_return es (releases_slot ∷ fs),
        );
        entries = omega (
          arith,
          s.entries,
          u.receipts,
          u.joins,
          u.leaves,
          count_by-append is_receipt es (releases_slot ∷ fs),
          count_by-append is_join es (releases_slot ∷ fs),
          count_by-append is_leave es (releases_slot ∷ fs),
        );
        slots = omega (
          arith,
          s.slots,
          u.takes,
          u.gives,
          count_by-append is_take es (releases_slot ∷ fs),
          count_by-append is_give es (releases_slot ∷ fs),
        );
      })

  pub ends-IsSettled :
      (before : ℕ) (es : List Effect) (after : Turn A)
      → IsSettled before es after
      → IsSettled before (es ++ []) after
  ends-IsSettled before es after s = record {
    tokens =
        omega (arith, s.tokens, count_by-append is_receipt es [], count_by-append is_return es []);
    entries = omega (
      arith,
      s.entries,
      count_by-append is_receipt es [],
      count_by-append is_join es [],
      count_by-append is_leave es [],
    );
    slots = omega (arith, s.slots, count_by-append is_take es [], count_by-append is_give es []);
  }
