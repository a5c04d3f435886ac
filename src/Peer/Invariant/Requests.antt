-- ===== src/Peer/Invariant/Requests.antt =====
-- `request_more_blocks` of bt/src/peer/peer_connection.rs keeps the invariant and fills the window of
-- requests.
use mathlib.Core.List.{map-append}
use rust_torrent_client.Prelude.{
  ℕ, zero, suc, ◌+◌, ◌*◌, u32_mod, ◌<◌, ◌≡◌, ◌⊎◌, refl, sym, subst, ap, ◌∙◌, map, All, All-append,
  append_assoc, append-nil, List, [], ◌∷◌, ◌++◌, Option, none, some, true, false, not, ◌||◌, ltb,
  ltb→lt, ◌==◌, inl, inr, arith, length, Ensures, holds, failed, Ensures-if, Ensures-bind,
  Ensures-checked, Ensures-weaken,
}
use rust_torrent_client.Ipc.{Message, request}
use rust_torrent_client.Events.{ManagerEvent}
use rust_torrent_client.Peer.Queue
use rust_torrent_client.Peer.Queue.{RequestMetadata, has, len, pop}
use rust_torrent_client.Peer.Queue.Laws.{has-add}
use rust_torrent_client.Peer.ToRequest
use rust_torrent_client.Peer.ToRequest.{Entry, contains_key, first}
use rust_torrent_client.Peer.ToRequest.Laws.{
  Agrees, Holds, All-Holds, remove_all, remove_all-append, first-entry, first-none, length-remove,
}
use rust_torrent_client.Peer.State.{PeerConnection, Env, Step, send_message, send_download}
use rust_torrent_client.Peer.Actions.{
  block_size, max_concurrent_requests, set_my_requests, or_canceled, request_block, request_next,
  request_loop, request_more_blocks,
}
use rust_torrent_client.Peer.Protocol.{view, Acts, here, Acts-trans, one, ask}
use rust_torrent_client.Peer.Invariant.{IsValid}
use rust_torrent_client.Peer.Invariant.Parts.{Valid-requested, first-fresh, len-add, add-new}

module _ {P : PeerConnection → Type 0} (env : Env) (c : PeerConnection) where
  pub Ensures-send_message :
      (m : Message) → P (record c { sent = c.sent ++ m ∷ [] }) → Ensures P (send_message env m c)
  unfolding send_message
  Ensures-send_message m h = Ensures-if env.writer_open (λ _. holds h) (λ _. failed)

  pub Ensures-send_download :
      (e : ManagerEvent)
      → P (record c { to_download = c.to_download ++ e ∷ [] })
      → Ensures P (send_download env e c)
  unfolding send_download
  Ensures-send_download e h = Ensures-if env.download_open (λ _. holds h) (λ _. failed)

pub Ensures-or_canceled {ℓ κ} :
    {A : Type ℓ} {P : A → Type κ} (o : Option A) → ((a : A) → P a) → Ensures P (or_canceled o)
Ensures-or_canceled none h = failed
Ensures-or_canceled (some a) h = holds (h a)

-- The blocks that are requested or wait for it.
abbrev pub pending : PeerConnection → ℕ
pending c = len c.me.requests + length c.to_request

abbrev pub Filled : PeerConnection → Type 0
Filled c = (len c.me.requests ≡ max_concurrent_requests) ⊎ (length c.to_request ≡ 0)

-- The request for a block, as it is kept and as it is sent.
abbrev pub kept : Entry → RequestMetadata
kept e = record {
  piece_index = e.value.piece_index;
  block_index = e.value.block_index;
  offset = e.value.block_index * block_size;
  block_length = e.value.block_length;
}

abbrev pub asked : Entry → Message
asked e = request e.value.piece_index (e.value.block_index * block_size) e.value.block_length

-- From `c` to `c'` the blocks that are listed were requested: they waited and no longer do, they
-- stand at the end of the queue in their order, and what was sent is one request for each, in the
-- same order, with its piece, offset and length. The peer's side and the flags are left alone.
pub record Requested (c c' : PeerConnection) : Type 0 where
  pub valid : IsValid c'
  pub moved : pending c' ≡ pending c
  pub blocks : List Entry
  pub waited : All (λ e. Holds e c.to_request) blocks
  pub left : c'.to_request ≡ remove_all blocks c.to_request
  pub queued : c'.me.requests.requests ≡ c.me.requests.requests ++ map kept blocks
  pub sent : c'.sent ≡ c.sent ++ map asked blocks
  pub choked : c'.me.is_choked ≡ c.me.is_choked
  pub interest : c'.me.is_interested ≡ c.me.is_interested
  pub his : c'.he ≡ c.he
  pub upload : c'.upload_in_progress ≡ c.upload_in_progress
  pub acts : c.me.is_choked ≡ false → c.me.is_interested ≡ true → Acts (view c) (view c')

Requested-refl : (c : PeerConnection) → IsValid c → Requested c c
Requested-refl c v = record {
  valid = v;
  moved = refl;
  blocks = [];
  waited = tt;
  left = refl;
  queued = sym (append-nil c.me.requests.requests);
  sent = sym (append-nil c.sent);
  choked = refl;
  interest = refl;
  his = refl;
  upload = refl;
  acts = λ _ _. here;
}

then_appended :
    {A : Type 0} (xs : List A) {ys zs : List A} (f : Entry → A) (bs cs : List Entry)
    → ys ≡ xs ++ map f bs
    → zs ≡ ys ++ map f cs
    → zs ≡ xs ++ map f (bs ++ cs)
then_appended xs f bs cs h k =
    k
    ∙ ap (λ l. l ++ map f cs) h
    ∙ append_assoc xs (map f bs) (map f cs)
    ∙ ap (λ l. xs ++ l) (sym (map-append f bs cs))

Requested-trans : {a b c : PeerConnection} → Requested a b → Requested b c → Requested a c
Requested-trans {a} {b} {c} r s = record {
  valid = s.valid;
  moved = s.moved ∙ r.moved;
  blocks = r.blocks ++ s.blocks;
  waited =
      All-append (λ e. Holds e a.to_request) r.blocks s.blocks r.waited
        (All-Holds r.blocks a.to_request s.blocks
          (subst (λ m. All (λ e. Holds e m) s.blocks) r.left s.waited));
  left =
      s.left
      ∙ ap (remove_all s.blocks) r.left
      ∙ sym (remove_all-append r.blocks s.blocks a.to_request);
  queued = then_appended a.me.requests.requests kept r.blocks s.blocks r.queued s.queued;
  sent = then_appended a.sent asked r.blocks s.blocks r.sent s.sent;
  choked = s.choked ∙ r.choked;
  interest = s.interest ∙ r.interest;
  his = s.his ∙ r.his;
  upload = s.upload ∙ r.upload;
  acts = λ free wanted.
      Acts-trans (r.acts free wanted) (s.acts (r.choked ∙ free) (r.interest ∙ wanted));
}

abbrev without : Entry → PeerConnection → PeerConnection
without e c = record c { to_request = ToRequest.remove e.key_piece e.key_block c.to_request }

abbrev Shorter : PeerConnection → PeerConnection → Type 0
Shorter c c' = suc (length c'.to_request) ≡ length c.to_request

request_block-Ensures :
    (env : Env) (c : PeerConnection) (e : Entry)
    → IsValid c
    → Agrees e
    → contains_key e.key_piece e.key_block c.to_request ≡ true
    → Holds e c.to_request
    → len c.me.requests < max_concurrent_requests
    → Ensures (λ c'. Shorter c c' × Requested c c') (request_block env e.value (without e c))
unfolding request_block
request_block-Ensures env c e v agrees inside waits room =
    let fresh = first-fresh v e agrees inside in
    let shorter = length-remove e.key_piece e.key_block c.to_request inside in
    Ensures-bind (Ensures-checked u32_mod (e.value.block_index * block_size)) λ offset (is, word).
      let added =
        (has-add c.me.requests e.value.piece_index e.value.block_index 0 0 offset
          e.value.block_length).1 in
      let longer =
        len-add c.me.requests e.value.piece_index e.value.block_index offset e.value.block_length
          fresh in
      let (q, is_new) =
        Queue.add c.me.requests e.value.piece_index e.value.block_index offset
          e.value.block_length in
      let wanted = request e.value.piece_index offset e.value.block_length in
      Ensures-if is_new
        (λ _. Ensures-send_message env (set_my_requests q (without e c)) wanted (
          shorter,
          record {
            valid = Valid-requested v e agrees inside offset e.value.block_length room;
            moved = omega (arith, longer, shorter);
            blocks = e ∷ [];
            waited = (waits, tt);
            left = refl;
            queued =
                add-new c.me.requests e.value.piece_index e.value.block_index offset
                  e.value.block_length fresh
                ∙ ap (λ o. c.me.requests.requests ++ record (kept e) { offset = o } ∷ []) is;
            sent = ap (λ o. c.sent ++ request e.value.piece_index o e.value.block_length ∷ []) is;
            choked = refl;
            interest = refl;
            his = refl;
            upload = refl;
            acts = λ free wanting. one (ask (view c) _ _ _ free wanting);
          },
        ))
        (λ old. absurd (cc (old, added, fresh)))

abbrev Loops : PeerConnection → PeerConnection → Type 0
Loops c c' = Requested c c' × Filled c'

request_next-Ensures :
    (env : Env) (more : Step) (o : Option Entry) (c : PeerConnection)
    → IsValid c
    → first env.key_order c.to_request ≡ o
    → len c.me.requests < max_concurrent_requests
    → ((c' : PeerConnection) → Shorter c c' → IsValid c' → Ensures (Loops c') (more c'))
    → Ensures (Loops c) (request_next env more o c)
unfolding request_next
request_next-Ensures env more none c v e room rest =
    holds (Requested-refl c v, inr (ap length (first-none env.key_order c.to_request e)))
request_next-Ensures env more (some x) c v e room rest =
    let (agrees, inside, waits) = first-entry env.key_order c.to_request x v.keys e in
    Ensures-bind (request_block-Ensures env c x v agrees inside waits room) λ c_1 (shorter, r).
      Ensures-weaken (rest c_1 shorter r.valid) λ c_2 (s, filled). (Requested-trans r s, filled)

request_loop-Ensures :
    (fuel : ℕ) (env : Env) (c : PeerConnection)
    → IsValid c
    → length c.to_request < fuel
    → Ensures (Loops c) (request_loop fuel env c)
unfolding request_loop
request_loop-Ensures zero env c v enough = absurd (omega arith)
request_loop-Ensures (suc fuel) env c v enough =
    Ensures-if (ltb (len c.me.requests) max_concurrent_requests)
      (λ room.
        request_next-Ensures env (request_loop fuel env) (first env.key_order c.to_request) c v refl
          (ltb→lt _ _ room)
          λ c' shorter v'. request_loop-Ensures fuel env c' v' (omega (arith, shorter)))
      (λ full. holds (Requested-refl c v, inl (ground (arith, v.window, full))))

-- From a valid connection `request_more_blocks` does not run out of fuel, and if it returns, it
-- has kept the invariant, and some blocks that waited no longer do: they are at the end of the queue
-- of requests, and exactly the requests for them were sent, in the same order, each with the piece,
-- the offset and the length of its block. If the peer chokes us or we are not interested it does nothing; else ten requests are out or no block waits.
pub request_more_blocks-Ensures :
    (env : Env) (c : PeerConnection)
    → IsValid c
    → Ensures
        (λ c'.
          Requested c c'
          × (c.me.is_choked || not c.me.is_interested ≡ true → c' ≡ c)
          × (c.me.is_choked || not c.me.is_interested ≡ false → Filled c'))
        (request_more_blocks env c)
unfolding request_more_blocks
request_more_blocks-Ensures env c v =
    Ensures-if (c.me.is_choked || not c.me.is_interested || length c.to_request == 0)
      (λ idle. holds (Requested-refl c v, λ _. refl, λ active. inr (ground (arith, idle, active))))
      (λ busy.
        Ensures-weaken (request_loop-Ensures (suc (length c.to_request)) env c v (omega arith))
          λ c' (r, filled). (r, λ idle. absurd (ground (arith, idle, busy)), λ _. filled))
