-- ===== src/Noise/KnownPeers.antt =====
-- src/noise/known_peers.rs: the keys that peers were first seen with, and the decision to trust a
-- peer that completed the handshake. Each call holds the lock on the map where it reads or writes
-- it. The file system and the text of times are parameters.
use llamesh.Prelude.{
  ℕ, Bool, true, false, not, ◌||◌, Option, none, some, List, [], ◌∷◌, ◌++◌, any, is_some, eqb,
  if◌then◌else◌,
}
use llamesh.Prelude.Eq.{◌==◌}
use llamesh.Prelude.Dict.{Dict, lookup, insert, remove}
use llamesh.Noise.Text.{
  Text, codes, text_key, newline, space, lines, split_whitespace, is_empty, trim, trim_start,
  trim_end, strip_prefix,
}

-- `DateTime<Utc>` of the chrono crate, as a number, with its printer and its parser.
pub record Calendar : Type 0 where
  pub to_rfc3339 : ℕ → Text
  pub parse : Text → Option ℕ

-- The file after a write of a text to it, and whether the write and the change of mode succeeded.
abbrev pub FileWrite : Type 0
FileWrite = Text → Option Text × Bool

pub record KnownPeer : Type 0 where
  pub node_id : Text
  pub public_key : Text
  pub first_seen : ℕ

pub data TrustDecision : Type 0 where
  trusted tofu_accepted rejected : TrustDecision
  key_mismatch : Text → TrustDecision

-- `file` is what the file at `path` contains, if it exists.
pub record KnownPeers : Type 0 where
  pub peers : Dict Text KnownPeer
  pub file : Option Text

-- The fields of `ClusterNoiseConfig` that are read here.
pub record ClusterNoiseConfig : Type 0 where
  pub tofu : Bool
  pub allowed_keys : List Text

pub data NoiseError : Type 0 where
  io : NoiseError
  peer_not_allowed : Text → Text → NoiseError
  key_mismatched : Text → Text → Text → NoiseError

unfoldable pub normalize_public_key : Text → Text
unfolding strip_prefix
normalize_public_key key = elim (strip_prefix (codes "ed25519:") key) [
  | none ↦ key
  | some value ↦ codes "noise25519:" ++ value
]

-- The words of a line as an entry.
abbrev pub parse_words : Calendar → ℕ → List Text → Dict Text KnownPeer → Dict Text KnownPeer
parse_words calendar now (node_id ∷ public_key ∷ stamp ∷ rest) peers =
    insert node_id
      (record {
        node_id = node_id;
        public_key = public_key;
        first_seen = elim (calendar.parse stamp) [ none ↦ now | some time ↦ time ];
      })
      peers
parse_words calendar now _ peers = peers

abbrev pub starts_with_hash : Text → Bool
starts_with_hash [] = false
starts_with_hash (c ∷ s) = eqb c 35

-- The body of the loop of `parse_file`.
unfoldable pub parse_line : Calendar → ℕ → Text → Dict Text KnownPeer → Dict Text KnownPeer
unfolding split_whitespace trim_start trim_end
parse_line calendar now line peers =
    let line' = trim line in
    if is_empty line' || starts_with_hash line'
    then peers
    else parse_words calendar now (split_whitespace line') peers

unfoldable pub parse_lines : Calendar → ℕ → List Text → Dict Text KnownPeer → Dict Text KnownPeer
unfolding parse_line
parse_lines calendar now [] peers = peers
parse_lines calendar now (line ∷ rest) peers =
    parse_lines calendar now rest (parse_line calendar now line peers)

-- `parse_file`, on the content of the file.
unfoldable pub parse_file : Calendar → ℕ → Text → Dict Text KnownPeer
unfolding lines parse_lines
parse_file calendar now content = parse_lines calendar now (lines content) []

-- `mode_ok` is the answer of `check_file_mode`.
unfoldable pub load_or_create : Calendar → ℕ → Bool → Option Text → Option KnownPeers
unfolding parse_file
load_or_create calendar now mode_ok none = some (record { peers = []; file = none })
load_or_create calendar now mode_ok (some content) =
    if mode_ok
    then some (record { peers = parse_file calendar now content; file = some content })
    else none

abbrev pub entry_line : Calendar → KnownPeer → Text
entry_line calendar p =
    p.node_id ++ (space ∷ p.public_key ++ (space ∷ calendar.to_rfc3339 p.first_seen))

abbrev pub entry_lines : Calendar → Dict Text KnownPeer → Text
entry_lines calendar [] = []
entry_lines calendar ((node_id, p) ∷ rest) =
    entry_line calendar p ++ (newline ∷ entry_lines calendar rest)

-- The text that `save` writes.
abbrev pub content : Calendar → Dict Text KnownPeer → Text
content calendar peers =
    codes "# node_id pubkey first_seen" ++ (newline ∷ entry_lines calendar peers)

unfoldable pub save : Calendar → FileWrite → KnownPeers → KnownPeers × Bool
save calendar write s =
    let (file, done) = write (content calendar s.peers) in (record s { file = file }, done)

-- `check_peer` below its test of the allowed keys.
abbrev pub check_known : Option KnownPeer → Text → Bool → List Text → TrustDecision
check_known (some known) presented tofu_enabled allowed_keys =
    if normalize_public_key known.public_key == presented
    then trusted
    else key_mismatch known.public_key
check_known none presented tofu_enabled [] = if tofu_enabled then tofu_accepted else rejected
check_known none presented tofu_enabled (key ∷ keys) = tofu_accepted

-- The presented key passes the pinning.
abbrev pub is_allowed : Text → List Text → Bool
is_allowed presented [] = true
is_allowed presented (key ∷ keys) =
    any (λ (k : Text). normalize_public_key k == presented) (key ∷ keys)

unfoldable pub check_peer : KnownPeers → Text → Text → Bool → List Text → TrustDecision
unfolding normalize_public_key
check_peer s node_id public_key tofu_enabled allowed_keys =
    let presented = normalize_public_key public_key in
    if not (is_allowed presented allowed_keys)
    then rejected
    else check_known (lookup node_id s.peers) presented tofu_enabled allowed_keys

-- The entry stays in memory where the save fails.
unfoldable pub add_peer : Calendar → FileWrite → ℕ → KnownPeers → Text → Text → KnownPeers × Bool
unfolding save
add_peer calendar write now s node_id public_key = save calendar write (record s {
  peers =
      insert node_id (record { node_id = node_id; public_key = public_key; first_seen = now })
        s.peers;
})

unfoldable pub remove_peer : Calendar → FileWrite → KnownPeers → Text → KnownPeers × Option Bool
unfolding save
remove_peer calendar write s node_id =
    let removed = is_some (lookup node_id s.peers) in
    let (left, done) = save calendar write (record s { peers = remove node_id s.peers }) in
    if removed then (left, if done then some true else none) else (s, some false)

-- What `verify_peer` does on a decision; `none` is its `Ok(())`.
abbrev pub handle_decision :
    Calendar
    → FileWrite
    → ℕ
    → KnownPeers
    → Text
    → Text
    → TrustDecision
    → KnownPeers × Option NoiseError
handle_decision calendar write now s node_id public_key trusted = (s, none)
handle_decision calendar write now s node_id public_key tofu_accepted =
    let (added, done) = add_peer calendar write now s node_id public_key in
    (added, if done then none else some io)
handle_decision calendar write now s node_id public_key rejected =
    (s, some (peer_not_allowed node_id public_key))
handle_decision calendar write now s node_id public_key (key_mismatch known) =
    (s, some (key_mismatched node_id public_key known))

unfoldable pub verify_peer :
    Calendar
    → FileWrite
    → ℕ
    → ClusterNoiseConfig
    → KnownPeers
    → Text
    → Text
    → KnownPeers × Option NoiseError
unfolding check_peer add_peer
verify_peer calendar write now config s node_id public_key =
    handle_decision calendar write now s node_id public_key
      (check_peer s node_id public_key config.tofu config.allowed_keys)
