-- ===== src/Wedge/Streak.antt =====
-- What a confirmed kill says of the samples before it.
use mathlib.Core.Path.{subst}
use llamesh.Prelude.{
  ℕ, ◌-◌, ◌≡◌, ◌⊎◌, inl, inr, Option, none, some, List, [], ◌∷◌, ◌++◌, ◌≢◌, All, Option-cases,
  arith,
}
use llamesh.Wedge.{InstanceWedgeState, WedgeVerdict, wedged_this_tick, update_entry}

-- One tick as one instance sees it.
pub record Tick : Type 0 where
  pub now : ℕ
  pub pid : ℕ
  pub busy_now : Option ℕ
  pub verdict : WedgeVerdict

-- The entry after some ticks, newest first, with what the newest one reports.
abbrev pub entry_after : List Tick → Option InstanceWedgeState × Option ℕ
entry_after [] = (none, none)
entry_after (t ∷ ts) =
    let (st, wedged_for) = update_entry (entry_after ts).0 t.pid t.busy_now t.now t.verdict in
    (some st, wedged_for)

-- The newest ticks all read as wedged for this process, back to one at `since`.
abbrev pub Streak : ℕ → ℕ → List Tick → Type 0
Streak since pid [] = ⊥
Streak since pid (t ∷ ts) =
    (t.verdict ≡ wedged_this_tick) × (t.pid ≡ pid) × ((t.now ≡ since) ⊎ Streak since pid ts)

abbrev Follows : Option InstanceWedgeState → List Tick → Type 0
Follows none ts = Unit {0}
Follows (some st) ts = (since : ℕ) → st.wedged_since ≡ some since → Streak since st.pid ts

update_Follows :
    (prev : Option InstanceWedgeState) (t : Tick) (ts : List Tick)
    → Follows prev ts
    → (since : ℕ) → (update_entry prev t.pid t.busy_now t.now t.verdict).0.wedged_since ≡ some since
    → Streak since (update_entry prev t.pid t.busy_now t.now t.verdict).0.pid (t ∷ ts)
unfolding update_entry
update_Follows none t ts f since e = ground arith
update_Follows (some st) t ts f since e = ground (arith, f since)

entry_after-Follows : (ts : List Tick) → Follows (entry_after ts).0 ts
entry_after-Follows [] = tt
entry_after-Follows (t ∷ ts) = update_Follows (entry_after ts).0 t ts (entry_after-Follows ts)

update_since :
    (prev : Option InstanceWedgeState) (t : Tick) (wedged_for since : ℕ)
    → (update_entry prev t.pid t.busy_now t.now t.verdict).1 ≡ some wedged_for
    → (update_entry prev t.pid t.busy_now t.now t.verdict).0.wedged_since ≡ some since
    → (wedged_for ≡ t.now - since)
      × ((update_entry prev t.pid t.busy_now t.now t.verdict).0.pid ≡ t.pid)
unfolding update_entry
update_since none t wedged_for since e s = ground arith
update_since (some st) t wedged_for since e s = ground arith

update_marked :
    (prev : Option InstanceWedgeState) (t : Tick) (wedged_for : ℕ)
    → (update_entry prev t.pid t.busy_now t.now t.verdict).1 ≡ some wedged_for
    → (update_entry prev t.pid t.busy_now t.now t.verdict).0.wedged_since ≢ none
unfolding update_entry
update_marked none t wedged_for e = ground arith
update_marked (some st) t wedged_for e = ground arith

-- Since the instance last became a candidate: where its newest tick reports a wedge of some
-- length, every tick back to one that long before read as wedged for that same process. A kill
-- wants that length to reach the window, so any sign of work or a respawn within the window rules
-- it out.
pub wedged_for-Streak :
    (t : Tick) (ts : List Tick) (wedged_for : ℕ)
    → (entry_after (t ∷ ts)).1 ≡ some wedged_for
    → (since : ℕ) × Streak since t.pid (t ∷ ts) × (wedged_for ≡ t.now - since)
wedged_for-Streak t ts wedged_for e =
    let st = (update_entry (entry_after ts).0 t.pid t.busy_now t.now t.verdict).0 in
    elim (Option-cases st.wedged_since) [
      | inl gone ↦ absurd (update_marked (entry_after ts).0 t wedged_for e gone)
      | inr (since, s) ↦
          let (l, p) = update_since (entry_after ts).0 t wedged_for since e s in
          let streak = update_Follows (entry_after ts).0 t ts (entry_after-Follows ts) since s in
          (since, subst (λ q. Streak since q (t ∷ ts)) p streak, l)
    ]

abbrev pub StillWedged : ℕ → List Tick → Type 0
StillWedged pid = All (λ t. (t.verdict ≡ wedged_this_tick) × (t.pid ≡ pid))

keeps_streak :
    (st : InstanceWedgeState) (t : Tick) (pid since : ℕ)
    → (t.verdict ≡ wedged_this_tick) × (t.pid ≡ pid)
    → (st.wedged_since ≡ some since) × (st.pid ≡ pid)
    → ((update_entry (some st) t.pid t.busy_now t.now t.verdict).0.wedged_since ≡ some since)
      × ((update_entry (some st) t.pid t.busy_now t.now t.verdict).0.pid ≡ pid)
      × ((update_entry (some st) t.pid t.busy_now t.now t.verdict).1 ≡ some (t.now - since))
unfolding update_entry
keeps_streak st t pid since w s = ground arith

starts_streak :
    (t : Tick)
    → t.verdict ≡ wedged_this_tick
    → ((update_entry none t.pid t.busy_now t.now t.verdict).0.wedged_since ≡ some t.now)
      × ((update_entry none t.pid t.busy_now t.now t.verdict).0.pid ≡ t.pid)
unfolding update_entry
starts_streak t w = ground arith

-- The entry after an unbroken streak.
abbrev Since : ℕ → ℕ → Option InstanceWedgeState → Type 0
Since since pid none = ⊥
Since since pid (some st) = (st.wedged_since ≡ some since) × (st.pid ≡ pid)

Since-step :
    (prev : Option InstanceWedgeState) (t : Tick) (pid since : ℕ)
    → (t.verdict ≡ wedged_this_tick) × (t.pid ≡ pid)
    → Since since pid prev
    → Since since pid (some (update_entry prev t.pid t.busy_now t.now t.verdict).0)
      × ((update_entry prev t.pid t.busy_now t.now t.verdict).1 ≡ some (t.now - since))
Since-step none t pid since w s = absurd s
Since-step (some st) t pid since w s = let k = keeps_streak st t pid since w s in ((k.0, k.1), k.2)

unbroken :
    (first : Tick) (ts : List Tick)
    → StillWedged first.pid (ts ++ (first ∷ []))
    → Since first.now first.pid (entry_after (ts ++ (first ∷ []))).0
unbroken first [] all = starts_streak first all.0.0
unbroken first (t ∷ ts) all =
    (Since-step (entry_after (ts ++ (first ∷ []))).0 t first.pid first.now all.0
      (unbroken first ts all.1)).0

-- An instance that every tick since its first finds wedged is reported at each later tick, with
-- the time since the first; so a wedge that lasts for the window is confirmed.
pub persistent_wedge :
    (first t : Tick) (ts : List Tick)
    → StillWedged first.pid (t ∷ (ts ++ (first ∷ [])))
    → (entry_after (t ∷ (ts ++ (first ∷ [])))).1 ≡ some (t.now - first.now)
persistent_wedge first t ts all =
    (Since-step (entry_after (ts ++ (first ∷ []))).0 t first.pid first.now all.0
      (unbroken first ts all.1)).1
