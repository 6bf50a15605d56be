-- ===== src/Client/Announced.antt =====
-- server.go: when announceToTracker succeeds, and what getMetadataFromTracker then gives.
use file_share_p2p.Prelude.{
  ℕ, zero, suc, ◌+◌, Bool, true, false, ◌||◌, Option, some, ◌≡◌, ◌≢◌, refl, sym, ap, ◌∙◌, arith,
  contains,
}
use file_share_p2p.Prelude.Maps.{get}
use file_share_p2p.GoString.{GoString, string_eq, bytes}
use file_share_p2p.Metadata.{Metadata}
use file_share_p2p.Tracker.State.{FileInfo, Tracker, Announcement, Body, file_json}
use file_share_p2p.Tracker.Handlers.{handle_get_metadata, peers_or_empty}
use file_share_p2p.Client.Address.{get_peer_address}
use file_share_p2p.Client.Announce.{
  Delivery, Addresses, announcement_of, post_announcement, announce_rounds, announce_to_tracker,
}
use file_share_p2p.Client.Fetch.{get_metadata_from_tracker}
use file_share_p2p.Client.Published.{
  is_answered, published, Published, Agreed, is_ok-post_announcement, rounds-Published,
}

-- One of some attempts is answered.
abbrev pub any_answered : (ℕ → Delivery) → ℕ → ℕ → Bool
any_answered deliveries zero attempt = false
any_answered deliveries (suc left) attempt =
    is_answered (deliveries attempt) || any_answered deliveries left (attempt + 1)

rounds_any :
    (deliveries : ℕ → Delivery) (left attempt : ℕ) (a : Announcement) (t : Tracker)
    → (announce_rounds deliveries left attempt (some a) t).1 ≡ any_answered deliveries left attempt
unfolding announce_rounds
rounds_any deliveries zero attempt a t = refl
rounds_any deliveries (suc left) attempt a t =
    let r = post_announcement (deliveries attempt) (some a) t in
    ground (
      arith,
      is_ok-post_announcement (deliveries attempt) a t,
      rounds_any deliveries left (attempt + 1) a r.0,
    )

module _ (base : GoString → GoString) (transmit : Announcement → Option Announcement)
    (addresses : Addresses) (deliveries : ℕ → Delivery) (listen : GoString) (meta : Metadata)
    (addr : GoString) (t : Tracker)
    (here : get_peer_address addresses.public_ip addresses.local_ip listen ≡ some addr)
    (sent : transmit (announcement_of base meta.file_id addr meta)
      ≡ some (announcement_of base meta.file_id addr meta)) where
  announce_to_tracker_rounds :
      announce_to_tracker base transmit addresses deliveries listen meta.file_id meta t
      ≡ announce_rounds deliveries 3 0 (some (announcement_of base meta.file_id addr meta)) t
  unfolding announce_to_tracker
  announce_to_tracker_rounds = ground (arith, here, sent)

  -- Where the peer finds its address and the announcement is decoded as it was, announceToTracker
  -- returns no error exactly if one of its first three requests is answered.
  pub announce_to_tracker_lem :
      (announce_to_tracker base transmit addresses deliveries listen meta.file_id meta t).1
      ≡ (is_answered (deliveries 0) || is_answered (deliveries 1) || is_answered (deliveries 2))
  announce_to_tracker_lem =
      ap (λ (r : Tracker × Bool). r.1) announce_to_tracker_rounds
      ∙ rounds_any deliveries 3 0 (announcement_of base meta.file_id addr meta) t
      ∙ ground arith

  pub announced-Published :
      Agreed meta t
      → (announce_to_tracker base transmit addresses deliveries listen meta.file_id meta t).1 ≡ true
      → Published meta addr
          (announce_to_tracker base transmit addresses deliveries listen meta.file_id meta t).0
  announced-Published h e =
      let p =
        rounds-Published base meta addr deliveries 3 0 t h
          (sym (ap (λ (r : Tracker × Bool). r.1) announce_to_tracker_rounds) ∙ e) in
      rw announce_to_tracker_rounds p

pub handle_get_metadata-Published :
    (meta : Metadata) (addr : GoString) (t : Tracker) (h : Published meta addr t)
    → meta.file_id ≢ bytes ""
    → handle_get_metadata meta.file_id t ≡ record { status = 200; body = file_json h.info }
unfolding handle_get_metadata
handle_get_metadata-Published meta addr t h n = ground (arith, n, h.known)

-- Let a file have an id, the peer find its address, JSON carry the announcement and the answer, and
-- let what the tracker has under the id, if it has the hash of the file, be of the same metadata. If
-- one of the three requests of announceToTracker is answered, whatever becomes of the others, then
-- getMetadataFromTracker gives the metadata of the file but the path, and the peer is listed.
pub get_metadata-announce_to_tracker :
    (base : GoString → GoString) (transmit : Announcement → Option Announcement)
    (decode : Body → Option FileInfo) (addresses : Addresses) (deliveries : ℕ → Delivery)
    (listen : GoString) (meta : Metadata) (addr : GoString) (t : Tracker)
    → get_peer_address addresses.public_ip addresses.local_ip listen ≡ some addr
    → transmit (announcement_of base meta.file_id addr meta)
      ≡ some (announcement_of base meta.file_id addr meta)
    → ((info : FileInfo) → decode (file_json info) ≡ some info)
    → meta.file_id ≢ bytes ""
    → Agreed meta t
    → (is_answered (deliveries 0) || is_answered (deliveries 1) || is_answered (deliveries 2))
      ≡ true
    → let t' =
        (announce_to_tracker base transmit addresses deliveries listen meta.file_id meta t).0 in
      (get_metadata_from_tracker decode true meta.file_id t' ≡ some (published meta))
      × (contains addr (peers_or_empty (get meta.file_id t'.peer_index)) ≡ true)
unfolding get_metadata_from_tracker
get_metadata-announce_to_tracker base transmit decode addresses deliveries listen meta addr t here
      sent json named h any =
    let p = announced-Published base transmit addresses deliveries listen meta addr t here sent h (
      announce_to_tracker_lem base transmit addresses deliveries listen meta addr t here sent
      ∙ any) in
    let t' =
      (announce_to_tracker base transmit addresses deliveries listen meta.file_id meta t).0 in
    (rw (handle_get_metadata-Published meta addr t' p named, json p.info, p.same) refl, p.listed)
