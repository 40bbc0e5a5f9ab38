-- ===== src/Queues/Invariant.antt =====
-- src/node_state/mod.rs: every token is where it should be, under every interleaving.
use llamesh.Prelude.{
  ℕ, zero, suc, ◌+◌, ◌≤◌, ◌<◌, ◌≡◌, ◌≢◌, refl, sym, ap, String, Bool, true, false, ◌&&◌, some, List,
  [], ◌∷◌, ◌⊎◌, length, arith, ltb, eqb, eqb_iff, if◌then◌else◌,
}
use llamesh.Prelude.Eq.{string_key, ◌==◌, ==_refl}
use llamesh.Prelude.Word.{u64_mod}
use llamesh.Prelude.Dict.{lookup}
use llamesh.Prelude.Buckets.{times, list_at}
use llamesh.Queues.{
  has_pending_waiters, queued_as, refused_full, refused_global, QueueLimits, enqueue, pop_front,
  promote_pending_token, remove_queue_entry, remove_pending_token,
}
use llamesh.Queues.Views.{
  on_queue, on_pending, is_at, pop_view, remove_entry_view, promote_view, remove_pending_view,
  enqueue_view, full_view, global_view,
}
use llamesh.Queues.Tokens.{
  Place, unborn, carried, promoted, held, finished, Token, World, Step, Reach, here, next, enqueues,
  refuses_full, refuses_global, pops, promotes, sends, sends_revoked, returns, returns_revoked,
  closes, releases, releases_again, cleans, expires, drains, is_queued, is_pending, is_closed,
  update, move, pruned, fresh_token, cleaned, expired, idle_world,
}

-- How many of the numbers below `n` pass a test.
unfoldable pub count_below : ℕ → (ℕ → Bool) → ℕ
count_below zero p = 0
count_below (suc n) p = (if p n then 1 else 0) + count_below n p

pub count_below-le : (n : ℕ) (p : ℕ → Bool) → count_below n p ≤ n
unfolding count_below
count_below-le zero p = omega arith
count_below-le (suc n) p = ground (arith, count_below-le n p)

-- Two tests that differ at `t` at most.
count_below_at :
    (n : ℕ) (p q : ℕ → Bool) (t : ℕ)
    → ((u : ℕ) → eqb u t ≡ false → p u ≡ q u)
    → count_below n q + (if p t then (if ltb t n then 1 else 0) else 0)
      ≡ count_below n p + (if q t then (if ltb t n then 1 else 0) else 0)
unfolding count_below
count_below_at zero p q t same = ground arith
count_below_at (suc n) p q t same = ground (arith, count_below_at n p q t same, same n, eqb_iff n t)

-- Each token is on the queue of its key once while it is queued, among the pending tokens of its
-- key once while its permit is out and not revoked, and nowhere else; tokens not given out yet are
-- unborn; and the gauge counts those permits.
pub record IsAccounted (w : World) : Type 0 where
  pub queue :
      (key : String) (t : ℕ)
      → on_queue w.queues key t
        ≡ (if is_queued (w.tokens t).place && ((w.tokens t).key == key) then 1 else 0)
  pub pending :
      (key : String) (t : ℕ)
      → on_pending w.queues key t
        ≡ (if is_pending (w.tokens t).place && ((w.tokens t).key == key) then 1 else 0)
  pub fresh : (t : ℕ) → w.queues.pending_token_counter ≤ t → (w.tokens t).place ≡ unborn
  pub gauge :
      w.queues.queue_pending_tokens
      ≡ count_below w.queues.pending_token_counter (λ t. is_pending (w.tokens t).place)
  pub small : w.queues.pending_token_counter < u64_mod

-- A step that moves the token `t` and touches no other.
module _ (w v : World) (t : ℕ) (a : IsAccounted w)
    (others : (u : ℕ) → eqb u t ≡ false → v.tokens u ≡ w.tokens u)
    (same_key : (v.tokens t).key ≡ (w.tokens t).key)
    (same_counter : v.queues.pending_token_counter ≡ w.queues.pending_token_counter)
    (unborn_stays : w.queues.pending_token_counter ≤ t → (v.tokens t).place ≡ unborn)
    (queue_moves : (j : String) (u : ℕ)
      → on_queue v.queues j u ≡ (
          if is_at (w.tokens t).key t j u
          then (if is_queued (v.tokens t).place then 1 else 0)
          else on_queue w.queues j u))
    (pending_moves : (j : String) (u : ℕ)
      → on_pending v.queues j u ≡ (
          if is_at (w.tokens t).key t j u
          then (if is_pending (v.tokens t).place then 1 else 0)
          else on_pending w.queues j u))
    (gauge_moves : v.queues.queue_pending_tokens + (if is_pending (w.tokens t).place then 1 else 0)
      ≡ w.queues.queue_pending_tokens + (if is_pending (v.tokens t).place then 1 else 0)) where
  moved_queue :
      (j : String) (u : ℕ)
      → on_queue v.queues j u
        ≡ (if is_queued (v.tokens u).place && ((v.tokens u).key == j) then 1 else 0)
  moved_queue j u = ground (
    arith,
    queue_moves j u,
    a.queue j u,
    others u,
    same_key,
    eqb_iff u t,
    string_key.same_iff (w.tokens t).key j,
  )

  moved_pending :
      (j : String) (u : ℕ)
      → on_pending v.queues j u
        ≡ (if is_pending (v.tokens u).place && ((v.tokens u).key == j) then 1 else 0)
  moved_pending j u = ground (
    arith,
    pending_moves j u,
    a.pending j u,
    others u,
    same_key,
    eqb_iff u t,
    string_key.same_iff (w.tokens t).key j,
  )

  moved_fresh : (u : ℕ) → v.queues.pending_token_counter ≤ u → (v.tokens u).place ≡ unborn
  moved_fresh u h = ground (arith, a.fresh u, others u, same_counter, unborn_stays, eqb_iff u t)

  moved_gauge :
      v.queues.queue_pending_tokens
      ≡ count_below v.queues.pending_token_counter (λ u. is_pending (v.tokens u).place)
  moved_gauge =
      let n = w.queues.pending_token_counter in
      let counts =
        count_below_at n (λ u. is_pending (w.tokens u).place) (λ u. is_pending (v.tokens u).place) t
          (λ u e. sym (ap (λ (x : Token). is_pending x.place) (others u e))) in
      rw same_counter (ground (arith, counts, gauge_moves, a.gauge, a.fresh t, unborn_stays))

  moved-IsAccounted : IsAccounted v
  moved-IsAccounted = record {
    queue = moved_queue;
    pending = moved_pending;
    fresh = moved_fresh;
    gauge = moved_gauge;
    small = rw same_counter a.small;
  }

count_below_pos : (n : ℕ) (p : ℕ → Bool) (t : ℕ) → t < n → p t ≡ true → 0 < count_below n p
unfolding count_below
count_below_pos zero p t h e = absurd (omega arith)
count_below_pos (suc n) p t h e = ground (arith, count_below_pos n p t, eqb_iff n t)

count_below_lt : (n : ℕ) (p : ℕ → Bool) (t : ℕ) → t < n → p t ≡ false → count_below n p < n
unfolding count_below
count_below_lt zero p t h e = absurd (omega arith)
count_below_lt (suc n) p t h e =
    ground (arith, count_below_lt n p t, count_below-le n p, eqb_iff n t)

module _ (w : World) (a : IsAccounted w) where
  update_others : (t : ℕ) (x : Token) (u : ℕ) → eqb u t ≡ false → update w.tokens t x u ≡ w.tokens u
  update_others t x u e = rw e

  update_here : (t : ℕ) (x : Token) → update w.tokens t x t ≡ x
  update_here t x = ground (arith, eqb_iff t t)

  born : (t : ℕ) → (w.tokens t).place ≢ unborn → t < w.queues.pending_token_counter
  born t h = ground (arith, a.fresh t)

  keeps-IsAccounted :
      (t : ℕ) (token : Token)
      → token.key ≡ (w.tokens t).key
      → is_queued token.place ≡ is_queued (w.tokens t).place
      → is_pending token.place ≡ is_pending (w.tokens t).place
      → ((w.tokens t).place ≡ unborn → token.place ≡ unborn)
      → IsAccounted (record w { tokens = update w.tokens t token })
  keeps-IsAccounted t token k q p b =
      let here = update_here t token in
      moved-IsAccounted w (record w { tokens = update w.tokens t token }) t a
        (update_others t token) (ground (arith, here, k)) refl
        (λ h. ground (arith, here, b, a.fresh t))
        (λ j u.
          ground (arith, here, q, a.queue j u, eqb_iff u t, string_key.same_iff (w.tokens t).key j))
        (λ j u.
          ground
            (arith, here, p, a.pending j u, eqb_iff u t, string_key.same_iff (w.tokens t).key j))
        (ground (arith, here, p))

  removes-IsAccounted :
      (t : ℕ) (place : Place)
      → is_queued place ≡ is_queued (w.tokens t).place
      → is_pending place ≡ false
      → (w.queues.pending_token_counter ≤ t → place ≡ unborn)
      → IsAccounted (record {
        queues = remove_pending_token w.queues (w.tokens t).key t;
        tokens = move w t place;
      })
  removes-IsAccounted t place q p fresh =
      let key = (w.tokens t).key in
      let here = update_here t (record (w.tokens t) { place = place }) in
      let gone = remove_pending_view w.queues key in
      moved-IsAccounted w _ t a (update_others t (record (w.tokens t) { place = place }))
        (ground (arith, here)) ((gone key t t).2) (λ h. ground (arith, here, fresh))
        (λ j u.
          ground (arith, here, q, gone j u t, a.queue j u, eqb_iff u t, string_key.same_iff key j))
        (λ j u. ground (arith, here, p, gone j u t))
        (ground (
          arith,
          here,
          p,
          gone key t t,
          a.pending key t,
          ==_refl key,
          a.gauge,
          born t,
          count_below_pos w.queues.pending_token_counter (λ u. is_pending (w.tokens u).place) t,
        ))

  pops-IsAccounted :
      (key : String) (t : ℕ)
      → (pop_front w.queues key).1 ≡ some t
      → IsAccounted (record { queues = (pop_front w.queues key).0; tokens = move w t carried })
  pops-IsAccounted key t h =
      let here = update_here t (record (w.tokens t) { place = carried }) in
      let view = λ (j : String) (u : ℕ). pop_view w.queues key j u t h in
      let owner : ((w.tokens t).key ≡ key) × (is_queued (w.tokens t).place ≡ true) = ground (
        arith,
        view key t,
        a.queue key t,
        ==_refl key,
        eqb_iff t t,
        string_key.same_iff (w.tokens t).key key,
      ) in
      moved-IsAccounted w _ t a (update_others t (record (w.tokens t) { place = carried }))
        (ground (arith, here)) (view key t).1.1 (λ u. ground (arith, here, owner, a.fresh t))
        (λ j u.
          ground
            (arith, here, owner, view j u, a.queue j u, eqb_iff u t, string_key.same_iff key j))
        (λ j u. ground (arith, here, owner, view key t, a.pending j u, eqb_iff u t))
        (ground (arith, here, owner, view key t))

  promotes-IsAccounted :
      (t : ℕ)
      → (w.tokens t).place ≡ carried
      → IsAccounted (record {
        queues = promote_pending_token w.queues (w.tokens t).key t;
        tokens = move w t promoted;
      })
  promotes-IsAccounted t c =
      let key = (w.tokens t).key in
      let here = update_here t (record (w.tokens t) { place = promoted }) in
      let absent : on_pending w.queues key t ≡ 0 = ground (arith, a.pending key t, c) in
      let view = λ (j : String) (u : ℕ). promote_view w.queues key j u t absent in
      let n = w.queues.pending_token_counter in
      let is_born : t < n = ground (arith, a.fresh t, c) in
      moved-IsAccounted w _ t a (update_others t (record (w.tokens t) { place = promoted }))
        (ground (arith, here)) (view key t).2 (λ h. absurd (omega arith))
        (λ j u. ground (arith, here, c, view key t, a.queue j u, eqb_iff u t))
        (λ j u.
          ground (arith, here, c, view j u, a.pending j u, eqb_iff u t, string_key.same_iff key j))
        (ground (
          arith,
          here,
          c,
          view key t,
          a.gauge,
          a.small,
          count_below_lt n (λ u. is_pending (w.tokens u).place) t,
        ))

  cleans-IsAccounted :
      (t : ℕ)
      → IsAccounted (record {
        queues = (remove_queue_entry w.queues (w.tokens t).key t).0;
        tokens = move w t (cleaned (w.tokens t).place);
      })
  cleans-IsAccounted t =
      let key = (w.tokens t).key in
      let here = update_here t (record (w.tokens t) { place = cleaned (w.tokens t).place }) in
      let view = λ (j : String) (u : ℕ). remove_entry_view w.queues key j u t in
      moved-IsAccounted w _ t a
        (update_others t (record (w.tokens t) { place = cleaned (w.tokens t).place }))
        (ground (arith, here)) (view key t).1.1 (λ h. ground (arith, here, a.fresh t))
        (λ j u. ground (arith, here, view j u, a.queue j u))
        (λ j u.
          ground (arith, here, view key t, a.pending j u, eqb_iff u t, string_key.same_iff key j))
        (ground (arith, here, view key t))

  enqueues-IsAccounted :
      (limits : QueueLimits) (key : String) (t : ℕ)
      → (enqueue limits (is_closed w) w.queues key).1 ≡ queued_as t
      → t + 1 < u64_mod
      → IsAccounted (record {
        queues = (enqueue limits (is_closed w) w.queues key).0;
        tokens = update (pruned w key) t (fresh_token key);
      })
  enqueues-IsAccounted limits key t h small =
      let view = λ (j : String) (u : ℕ). enqueue_view limits (is_closed w) w.queues key j u t h in
      let n = w.queues.pending_token_counter in
      let same : t ≡ n = (view key t).1 in
      let counter : (enqueue limits (is_closed w) w.queues key).0.pending_token_counter ≡ suc n =
        ground (arith, view key t) in
      let before = λ (u : ℕ). is_pending (w.tokens u).place in
      let after = λ (u : ℕ). is_pending (update (pruned w key) t (fresh_token key) u).place in
      let counts = count_below_at n before after t (λ u e. ground arith) in
      record {
        queue = λ j u. ground (
          arith,
          view j u,
          a.queue j u,
          a.fresh u,
          eqb_iff u t,
          string_key.same_iff key j,
          string_key.same_iff (w.tokens u).key j,
          string_key.same_iff (w.tokens u).key key,
        );
        pending = λ j u. ground (arith, view key t, a.pending j u, a.fresh u, eqb_iff u t);
        fresh = λ u b. ground (arith, view key t, a.fresh u, eqb_iff u t);
        gauge =
            rw counter
              (unfold count_below in ground (arith, view key t, counts, a.gauge, eqb_iff n t));
        small = ground (arith, view key t);
      }

  full-IsAccounted :
      (limits : QueueLimits) (key : String)
      → (enqueue limits (is_closed w) w.queues key).1 ≡ refused_full
      → IsAccounted
          (record { queues = (enqueue limits (is_closed w) w.queues key).0; tokens = pruned w key })
  full-IsAccounted limits key h =
      let view = λ (j : String) (u : ℕ). full_view limits (is_closed w) w.queues key j u h in
      let n = w.queues.pending_token_counter in
      let before = λ (u : ℕ). is_pending (w.tokens u).place in
      let after = λ (u : ℕ). is_pending (pruned w key u).place in
      let counts = count_below_at n before after n (λ u e. ground arith) in
      record {
        queue = λ j u. ground (
          arith,
          view j u,
          a.queue j u,
          string_key.same_iff key j,
          string_key.same_iff (w.tokens u).key j,
          string_key.same_iff (w.tokens u).key key,
        );
        pending = λ j u. ground (arith, view key n, a.pending j u);
        fresh = λ u b. ground (arith, view key n, a.fresh u);
        gauge = rw ((view key n).1.1) (ground (arith, view key n, counts, a.gauge));
        small = ground (arith, view key n, a.small);
      }

  global-IsAccounted :
      (limits : QueueLimits) (key : String)
      → (enqueue limits (is_closed w) w.queues key).1 ≡ refused_global
      → IsAccounted (record w { queues = (enqueue limits (is_closed w) w.queues key).0 })
  global-IsAccounted limits key h =
      let view = global_view limits (is_closed w) w.queues key h in
      record {
        queue = λ j u. rw view.0 (a.queue j u);
        pending = λ j u. rw (view.1.0) (a.pending j u);
        fresh = λ u b. a.fresh u (rw (view.1.1) at b);
        gauge = rw (view.1.1, view.1.2) a.gauge;
        small = rw (view.1.1) a.small;
      }

Step-IsAccounted : {v w : World} → Step v w → IsAccounted v → IsAccounted w
Step-IsAccounted (enqueues w limits key t h small) a = enqueues-IsAccounted w a limits key t h small
Step-IsAccounted (refuses_full w limits key h) a = full-IsAccounted w a limits key h
Step-IsAccounted (refuses_global w limits key h) a = global-IsAccounted w a limits key h
Step-IsAccounted (pops w key t h) a = pops-IsAccounted w a key t h
Step-IsAccounted (promotes w t c) a = promotes-IsAccounted w a t c
Step-IsAccounted (sends w t p o) a =
    keeps-IsAccounted w a t (record (w.tokens t) { place = held }) refl (ground (arith, p))
      (ground (arith, p)) (λ e. cc)
Step-IsAccounted (sends_revoked w t p o) a = a
Step-IsAccounted (returns w t c p) a =
    removes-IsAccounted w a t finished (ground (arith, p)) refl (λ h. ground (arith, a.fresh t))
Step-IsAccounted (returns_revoked w t p) a =
    removes-IsAccounted w a t finished (ground (arith, p)) refl (λ h. ground (arith, a.fresh t))
Step-IsAccounted (closes w t) a =
    keeps-IsAccounted w a t (record (w.tokens t) { is_open = false }) refl refl refl (λ e. e)
Step-IsAccounted (releases w t p) a =
    removes-IsAccounted w a t finished (ground (arith, p)) refl (λ h. ground (arith, a.fresh t))
Step-IsAccounted (releases_again w t p) a =
    removes-IsAccounted w a t finished (ground (arith, p)) refl (λ h. ground (arith, a.fresh t))
Step-IsAccounted (cleans w t) a = cleans-IsAccounted w a t
Step-IsAccounted (expires w t) a =
    removes-IsAccounted w a t (expired (w.tokens t).place) (ground arith) (ground arith)
      (λ h. ground (arith, a.fresh t))
Step-IsAccounted (drains w) a = record {
  queue = a.queue;
  pending = a.pending;
  fresh = a.fresh;
  gauge = a.gauge;
  small = a.small;
}

-- From an idle node, through any interleaving of requests that join a queue, give up at any moment or
-- take their permit, of notifiers and of cleanup tasks: each token is on its queue once exactly while
-- it is queued, and pending once exactly while a permit for it is out that its request has not
-- revoked by giving up; it is on no queue twice and under no other key, and the gauge counts the
-- permits that are out and not revoked.
pub Reach-IsAccounted : {w : World} → Reach idle_world w → IsAccounted w
unfolding count_below lookup
Reach-IsAccounted here = record {
  queue = λ j u. refl;
  pending = λ j u. refl;
  fresh = λ u h. refl;
  gauge = refl;
  small = omega arith;
}
Reach-IsAccounted (next path step) = Step-IsAccounted step (Reach-IsAccounted path)

times-length : (xs : List ℕ) → ((t : ℕ) → times t xs ≡ 0) → length xs ≡ 0
times-length [] none = refl
times-length (x ∷ xs) none = ground (arith, none x, eqb_iff x x)

count_below-none : (n : ℕ) (p : ℕ → Bool) → ((t : ℕ) → p t ≡ false) → count_below n p ≡ 0
unfolding count_below
count_below-none zero p none = refl
count_below-none (suc n) p none = ground (arith, none n, count_below-none n p none)

-- Nothing leaks: once every token is done with, no key has a waiter, so that no request has to
-- yield, and the gauge is back at zero.
pub quiescent :
    {w : World}
    → Reach idle_world w
    → ((t : ℕ) → ((w.tokens t).place ≡ unborn) ⊎ ((w.tokens t).place ≡ finished))
    → ((key : String) → has_pending_waiters w.queues key ≡ false)
      × (w.queues.queue_pending_tokens ≡ 0)
unfolding has_pending_waiters
quiescent {w} path done =
    let a = Reach-IsAccounted path in
    (
      λ key. ground (
        arith,
        times-length (list_at key w.queues.queues) (λ t. ground (arith, a.queue key t, done t)),
        times-length (list_at key w.queues.pending_tokens)
            (λ t. ground (arith, a.pending key t, done t)),
      ),
      rw a.gauge (count_below-none _ _ (λ t. ground (arith, done t))),
    )
