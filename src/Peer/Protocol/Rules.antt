-- ===== src/Peer/Protocol/Rules.antt =====
-- What follows from the protocol for a whole connection.
use rust_torrent_client.Prelude.{
  ℕ, ◌+◌, ◌≤◌, ◌≡◌, refl, ap, ◌∙◌, List, [], ◌∷◌, ◌++◌, Bool, true, false, not, if◌then◌else◌,
  arith,
}
use rust_torrent_client.Ipc.{
  Message, un_choke, interested, not_interested, have, bitfield, request, piece, cancel, Ipc,
  message, block_completed, piece_completed, download_completed, block_uploaded,
}
use rust_torrent_client.Peer.Protocol.{
  View, Act, Acts, here, next, unchoke, ask, announce, serve, withdraw, tell_piece, tell_bits, hear,
}

-- A run of a connection that heard what the list says, in that order, and after each did what the
-- flags of that moment allow.
pub data Trace : View → List Ipc → View → Type 0 where
  start : {u : View} → Trace u [] u
  hears :
      {u v w : View} {heard : List Ipc} (i : Ipc)
      → Acts (hear i u) v
      → Trace v heard w
      → Trace u (i ∷ heard) w

-- The reports of uploads among what was heard.
abbrev pub is_report : Ipc → ℕ
is_report block_uploaded = 1
is_report _ = 0

abbrev pub reported : List Ipc → ℕ
reported [] = 0
reported (i ∷ heard) = is_report i + reported heard

pub reported-append_le : (xs ys : List Ipc) → reported xs ≤ reported (xs ++ ys)
reported-append_le [] ys = omega arith
reported-append_le (x ∷ xs) ys = omega (arith, reported-append_le xs ys)

abbrev is_piece : Message → ℕ
is_piece (piece _ _ _) = 1
is_piece _ = 0

abbrev pub pieces_sent : List Message → ℕ
pieces_sent [] = 0
pieces_sent (m ∷ sent) = is_piece m + pieces_sent sent

pieces_sent-append :
    (sent : List Message) (m : Message)
    → pieces_sent (sent ++ m ∷ []) ≡ pieces_sent sent + is_piece m
pieces_sent-append [] m = omega arith
pieces_sent-append (x ∷ sent) m = omega (arith, pieces_sent-append sent m)

abbrev pub bit : Bool → ℕ
bit true = 1
bit false = 0

-- The interest that the peer was told last; at first it takes us not to be interested.
abbrev interest_told : Bool → Message → Bool
interest_told b interested = true
interest_told b not_interested = false
interest_told b _ = b

abbrev told_from : Bool → List Message → Bool
told_from b [] = b
told_from b (m ∷ sent) = told_from (interest_told b m) sent

abbrev pub told_interest : List Message → Bool
told_interest sent = told_from false sent

told_from-append :
    (b : Bool) (sent : List Message) (m : Message)
    → told_from b (sent ++ m ∷ []) ≡ interest_told (told_from b sent) m
told_from-append b [] m = refl
told_from-append b (x ∷ sent) m = told_from-append (interest_told b x) sent m

-- Whether the peer was told that it is not choked.
abbrev unchokes : Message → Bool
unchokes un_choke = true
unchokes _ = false

abbrev pub told_unchoke : List Message → Bool
told_unchoke [] = false
told_unchoke (m ∷ sent) = if unchokes m then true else told_unchoke sent

told_unchoke-append :
    (sent : List Message) (m : Message)
    → told_unchoke (sent ++ m ∷ []) ≡ (if told_unchoke sent then true else unchokes m)
told_unchoke-append [] m = ground arith
told_unchoke-append (x ∷ sent) m = ground (arith, told_unchoke-append sent m)

-- The peer knows our flags: whether we are interested, and whether it is choked.
pub record Told (v : View) : Type 0 where
  pub interest : told_interest v.sent ≡ v.am_interested
  pub choked : told_unchoke v.sent ≡ not v.he_choked

abbrev pub Uploads : View → View → ℕ → Type 0
Uploads u v n = pieces_sent v.sent + bit u.uploading ≤ pieces_sent u.sent + n + bit v.uploading

module _ {v : View} (t : Told v) (m : Message) where
  interest_sent : told_interest (v.sent ++ m ∷ []) ≡ interest_told v.am_interested m
  interest_sent = told_from-append false v.sent m ∙ ap (λ b. interest_told b m) t.interest

  choked_sent : told_unchoke (v.sent ++ m ∷ []) ≡ (if not v.he_choked then true else unchokes m)
  choked_sent = ground (arith, told_unchoke-append v.sent m, t.choked)

  -- A message that tells nothing of the flags.
  Told-neutral :
      (b : Bool)
      → ((b : Bool) → interest_told b m ≡ b)
      → unchokes m ≡ false
      → Told (record v { uploading = b; sent = v.sent ++ m ∷ [] })
  Told-neutral b h k = record {
    interest = interest_sent ∙ h v.am_interested;
    choked = ground (arith, choked_sent, k);
  }

Act-Told : {v w : View} → Act v w → Told v → Told w
Act-Told (announce v true h) t = record {
  interest = interest_sent t interested;
  choked = ground (arith, choked_sent t interested);
}
Act-Told (announce v false h) t = record {
  interest = interest_sent t not_interested;
  choked = ground (arith, choked_sent t not_interested);
}
Act-Told (unchoke v h) t = record {
  interest = interest_sent t un_choke;
  choked = ground (arith, choked_sent t un_choke, h);
}
Act-Told (ask v p o n h k) t = Told-neutral t (request p o n) v.uploading (λ b. refl) refl
Act-Told (serve v p o block h k l) t = Told-neutral t (piece p o block) true (λ b. refl) refl
Act-Told (withdraw v p o n) t = Told-neutral t (cancel p o n) v.uploading (λ b. refl) refl
Act-Told (tell_piece v p) t = Told-neutral t (have p) v.uploading (λ b. refl) refl
Act-Told (tell_bits v bytes) t = Told-neutral t (bitfield bytes) v.uploading (λ b. refl) refl

Acts-Told : {v w : View} → Acts v w → Told v → Told w
Acts-Told here t = t
Acts-Told (next a s) t = Act-Told s (Acts-Told a t)

-- A step sends a block only by starting an upload.
Act-Uploads : {v w : View} → Act v w → Uploads v w 0
Act-Uploads (serve v p o block h k l) =
    ground (arith, pieces_sent-append v.sent (piece p o block), h)
Act-Uploads (announce v true h) = omega (arith, pieces_sent-append v.sent interested)
Act-Uploads (announce v false h) = omega (arith, pieces_sent-append v.sent not_interested)
Act-Uploads (unchoke v h) = omega (arith, pieces_sent-append v.sent un_choke)
Act-Uploads (ask v p o n h k) = omega (arith, pieces_sent-append v.sent (request p o n))
Act-Uploads (withdraw v p o n) = omega (arith, pieces_sent-append v.sent (cancel p o n))
Act-Uploads (tell_piece v p) = omega (arith, pieces_sent-append v.sent (have p))
Act-Uploads (tell_bits v bytes) = omega (arith, pieces_sent-append v.sent (bitfield bytes))

Acts-Uploads : {v w : View} → Acts v w → Uploads v w 0
Acts-Uploads here = omega arith
Acts-Uploads (next a s) = omega (arith, Acts-Uploads a, Act-Uploads s)

pub Trace-Told : {u v : View} {heard : List Ipc} → Trace u heard v → Told u → Told v
Trace-Told start t = t
Trace-Told (hears i a r) t =
    Trace-Told r (Acts-Told a (record { interest = t.interest; choked = t.choked }))

hear-Uploads : (i : Ipc) (u : View) → Uploads u (hear i u) (is_report i)
hear-Uploads (message m) u = omega arith
hear-Uploads (block_completed p b) u = omega arith
hear-Uploads (piece_completed p) u = omega arith
hear-Uploads download_completed u = omega arith
hear-Uploads block_uploaded u = ground arith

pub Trace-Uploads : {u v : View} {heard : List Ipc} → Trace u heard v → Uploads u v (reported heard)
Trace-Uploads start = omega arith
Trace-Uploads {u} (hears i a r) = omega (arith, hear-Uploads i u, Acts-Uploads a, Trace-Uploads r)
