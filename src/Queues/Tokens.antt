-- ===== src/Queues/Tokens.antt =====
-- src/node_state/mod.rs: who is in charge of a queue token, and what may happen to it next. Every
-- access to the queues and to the pending tokens is one step, so notifiers, requests and cleanup
-- tasks interleave freely.
use llamesh.Prelude.{
  ℕ, ◌+◌, ◌<◌, ◌≡◌, String, Bool, true, false, not, ◌&&◌, some, [], eqb, if◌then◌else◌,
}
use llamesh.Prelude.Eq.{string_key, ◌==◌}
use llamesh.Prelude.Word.{u64_mod}
use llamesh.Queues.{
  Queues, QueueLimits, queued_as, refused_full, refused_global, enqueue, pop_front,
  promote_pending_token, remove_queue_entry, remove_pending_token,
}

-- Where a token is: not given out yet; on a queue; taken off it by a notifier, which then promotes
-- it and has the permit; held as a permit by the request, or by the channel to it; revoked, which is a
-- permit at the notifier or in the channel whose pending token a request that gave up has removed; or
-- done with.
pub data Place : Type 0 where
  unborn queued carried promoted revoked held finished : Place

-- `is_open` says that the receiver for the token was not dropped.
pub record Token : Type 0 where
  pub key : String
  pub place : Place
  pub is_open : Bool

pub record World : Type 0 where
  pub queues : Queues
  pub tokens : ℕ → Token

abbrev pub is_queued : Place → Bool
is_queued queued = true
is_queued unborn = false
is_queued carried = false
is_queued promoted = false
is_queued revoked = false
is_queued held = false
is_queued finished = false

-- The places at which a token counts as pending.
abbrev pub is_pending : Place → Bool
is_pending promoted = true
is_pending held = true
is_pending queued = false
is_pending unborn = false
is_pending carried = false
is_pending revoked = false
is_pending finished = false

abbrev pub is_closed : World → ℕ → Bool
is_closed w t = not (w.tokens t).is_open

abbrev pub update : (ℕ → Token) → ℕ → Token → ℕ → Token
update tokens t token u = if eqb u t then token else tokens u

abbrev pub move : World → ℕ → Place → ℕ → Token
move w t place = update w.tokens t (record (w.tokens t) { place = place })

-- What an enqueueing does to the tokens: the entries on that queue whose receivers are gone are
-- dropped, and the new token is queued.
abbrev pub pruned : World → String → ℕ → Token
pruned w key u =
    if is_queued (w.tokens u).place && ((w.tokens u).key == key) && is_closed w u
    then record (w.tokens u) { place = finished }
    else w.tokens u

abbrev pub fresh_token : String → Token
fresh_token key = record { key = key; place = queued; is_open = true }

-- A removal from the queue, or from the pending tokens, of a token whose request gave up.
abbrev pub cleaned : Place → Place
cleaned queued = finished
cleaned unborn = unborn
cleaned carried = carried
cleaned promoted = promoted
cleaned revoked = revoked
cleaned held = held
cleaned finished = finished

abbrev pub expired : Place → Place
expired promoted = revoked
expired held = revoked
expired queued = queued
expired unborn = unborn
expired carried = carried
expired revoked = revoked
expired finished = finished

pub data Step : World → World → Type 0 where
  -- A request joins a queue; fewer than 2^64 requests ever do.
  enqueues :
      (w : World) (limits : QueueLimits) (key : String) (t : ℕ)
      → (enqueue limits (is_closed w) w.queues key).1 ≡ queued_as t
      → t + 1 < u64_mod
      → Step w (record {
        queues = (enqueue limits (is_closed w) w.queues key).0;
        tokens = update (pruned w key) t (fresh_token key);
      })
  refuses_full :
      (w : World) (limits : QueueLimits) (key : String)
      → (enqueue limits (is_closed w) w.queues key).1 ≡ refused_full
      → Step w
          (record { queues = (enqueue limits (is_closed w) w.queues key).0; tokens = pruned w key })
  refuses_global :
      (w : World) (limits : QueueLimits) (key : String)
      → (enqueue limits (is_closed w) w.queues key).1 ≡ refused_global
      → Step w (record w { queues = (enqueue limits (is_closed w) w.queues key).0 })
  -- A notifier takes the first entry off a queue, and then promotes its token.
  pops :
      (w : World) (key : String) (t : ℕ)
      → (pop_front w.queues key).1 ≡ some t
      → Step w (record { queues = (pop_front w.queues key).0; tokens = move w t carried })
  promotes :
      (w : World) (t : ℕ)
      → (w.tokens t).place ≡ carried
      → Step w (record {
        queues = promote_pending_token w.queues (w.tokens t).key t;
        tokens = move w t promoted;
      })
  -- It sends the permit, or gets it back where the receiver is gone, and releases it.
  sends :
      (w : World) (t : ℕ)
      → (w.tokens t).place ≡ promoted
      → (w.tokens t).is_open ≡ true
      → Step w (record w { tokens = move w t held })
  sends_revoked :
      (w : World) (t : ℕ) → (w.tokens t).place ≡ revoked → (w.tokens t).is_open ≡ true → Step w w
  returns :
      (w : World) (t : ℕ)
      → (w.tokens t).is_open ≡ false
      → (w.tokens t).place ≡ promoted
      → Step w (record {
        queues = remove_pending_token w.queues (w.tokens t).key t;
        tokens = move w t finished;
      })
  returns_revoked :
      (w : World) (t : ℕ)
      → (w.tokens t).place ≡ revoked
      → Step w (record {
        queues = remove_pending_token w.queues (w.tokens t).key t;
        tokens = move w t finished;
      })
  -- The receiver is dropped: the request timed out, failed or was cancelled.
  closes :
      (w : World) (t : ℕ)
      → Step w (record w { tokens = update w.tokens t (record (w.tokens t) { is_open = false }) })
  -- The permit is released, by the request or on its drop.
  releases :
      (w : World) (t : ℕ)
      → (w.tokens t).place ≡ held
      → Step w (record {
        queues = remove_pending_token w.queues (w.tokens t).key t;
        tokens = move w t finished;
      })
  -- A release of a permit whose token was removed before.
  releases_again :
      (w : World) (t : ℕ)
      → (w.tokens t).place ≡ finished
      → Step w (record {
        queues = remove_pending_token w.queues (w.tokens t).key t;
        tokens = move w t finished;
      })
  -- A request that gives up removes its entry, and its pending token. Its receiver may be open still,
  -- where the deadline had passed before it began to wait.
  cleans :
      (w : World) (t : ℕ)
      → Step w (record {
        queues = (remove_queue_entry w.queues (w.tokens t).key t).0;
        tokens = move w t (cleaned (w.tokens t).place);
      })
  expires :
      (w : World) (t : ℕ)
      → Step w (record {
        queues = remove_pending_token w.queues (w.tokens t).key t;
        tokens = move w t (expired (w.tokens t).place);
      })
  -- The node begins to drain.
  drains : (w : World) → Step w (record w { queues = record (w.queues) { draining = true } })

pub data Reach (start : World) : World → Type 0 where
  here : Reach start start
  next : {v w : World} → Reach start v → Step v w → Reach start w

abbrev pub no_queues : Queues
no_queues = record {
  queues = [];
  pending_tokens = [];
  pending_token_counter = 0;
  draining = false;
  queue_pending_tokens = 0;
  queue_drops_full = 0;
  queue_drops_global_limit = 0;
}

abbrev pub idle_world : World
idle_world = record {
  queues = no_queues;
  tokens = λ t. record { key = ""; place = unborn; is_open = false };
}
