-- ===== src/Client/Published.antt =====
-- server.go against p2p/tracker.go: what an announcement leaves at the tracker.
use file_share_p2p.Prelude.{
  ℕ, zero, suc, ◌+◌, Bool, true, false, Option, none, some, [], ◌≡◌, refl, sym, ◌∙◌, arith, eqb,
  ◌==◌, ==_refl, ==_iff, insert_pos, length, contains, insert, contains-insert, subst, Bool-cases,
  inl, inr,
}
use mathlib.Core.Option.{some-injective}
use file_share_p2p.Prelude.Maps.{get, get-put}
use file_share_p2p.GoString.{GoString, string_eq}
use file_share_p2p.Metadata.{Metadata, metadata_of}
use file_share_p2p.Tracker.State.{FileInfo, Tracker, Announcement}
use file_share_p2p.Tracker.Handlers.{
  on_post, handle_announce, announce, announced_file, file_of_announcement, peers_or_empty,
  status_ok, method_post,
}
use file_share_p2p.Client.Announce.{
  Delivery, lost, unanswered, answered, announcement_of, announce_request, post_announcement,
  announce_rounds, is_ok,
}

abbrev pub is_answered : Delivery → Bool
is_answered (answered uploaded now) = true
is_answered _ = false

-- The metadata of a file as it comes back from the tracker: all but the path.
abbrev pub published : Metadata → Metadata
published meta = record meta { original_path = [] }

-- The tracker has the file of the metadata with this peer.
pub record Published (meta : Metadata) (addr : GoString) (t : Tracker) : Type 0 where
  pub info : FileInfo
  pub known : get meta.file_id t.file_index ≡ some info
  pub same : metadata_of info ≡ published meta
  pub has_peers : eqb info.num_peers 0 ≡ false
  pub listed : contains addr (peers_or_empty (get meta.file_id t.peer_index)) ≡ true

-- What the tracker has under the id is, if it has the hash, this file.
abbrev pub Agreed : Metadata → Tracker → Type 0
Agreed meta t =
    (info : FileInfo)
    → get meta.file_id t.file_index ≡ some info
    → info.total_hash ≡ meta.total_hash
    → metadata_of info ≡ published meta

handle_announce_post :
    (uploaded now : ℕ) (a : Announcement) (t : Tracker)
    → handle_announce uploaded now (announce_request (some a)) t
      ≡ (announce uploaded now a t, status_ok)
unfolding handle_announce on_post
handle_announce_post uploaded now a t = rw (==_refl method_post) refl

pub is_ok-post_announcement :
    (delivery : Delivery) (a : Announcement) (t : Tracker)
    → is_ok (post_announcement delivery (some a) t).1 ≡ is_answered delivery
unfolding post_announcement
is_ok-post_announcement lost a t = refl
is_ok-post_announcement (unanswered uploaded now) a t = refl
is_ok-post_announcement (answered uploaded now) a t =
    rw (handle_announce_post uploaded now a t) refl

module _ (base : GoString → GoString) (meta : Metadata) (addr : GoString) where
  abbrev body : Announcement
  body = announcement_of base meta.file_id addr meta

  announced-same :
      (uploaded : ℕ) (old : Option FileInfo)
      → ((info : FileInfo)
          → old ≡ some info
          → info.total_hash ≡ meta.total_hash
          → metadata_of info ≡ published meta)
      → metadata_of (announced_file uploaded body old) ≡ published meta
  unfolding metadata_of announced_file file_of_announcement announcement_of
  announced-same uploaded none h = refl
  announced-same uploaded (some info) h = elim (Bool-cases (info.total_hash == meta.total_hash)) [
    | inl e ↦ rw e (h info refl ((==_iff info.total_hash meta.total_hash).0 e))
    | inr e ↦ rw e refl
  ]

  announce-Published :
      (uploaded now : ℕ) (t : Tracker)
      → Agreed meta t
      → Published meta addr (announce uploaded now body t)
  unfolding announce announcement_of metadata_of
  announce-Published uploaded now t h = record {
    info = record (announced_file uploaded body (get meta.file_id t.file_index)) {
      num_peers = length (insert addr (peers_or_empty (get meta.file_id t.peer_index)));
    };
    known =
        rw
          (
            get-put meta.file_id
                (record (announced_file uploaded body (get meta.file_id t.file_index)) {
                  num_peers = length (insert addr (peers_or_empty (get meta.file_id t.peer_index)));
                })
                t.file_index meta.file_id,
            ==_refl meta.file_id,
          )
          refl;
    same = announced-same uploaded (get meta.file_id t.file_index) h;
    has_peers = ground (arith, insert_pos addr (peers_or_empty (get meta.file_id t.peer_index)));
    listed = ground (
      arith,
      get-put meta.file_id (insert addr (peers_or_empty (get meta.file_id t.peer_index)))
          t.peer_index meta.file_id,
      ==_refl meta.file_id,
      ==_refl addr,
      contains-insert addr addr (peers_or_empty (get meta.file_id t.peer_index)),
    );
  }

  Published-Agreed : (t : Tracker) → Published meta addr t → Agreed meta t
  Published-Agreed t h info e same =
      subst (λ i. metadata_of i ≡ published meta) (some-injective h.info info (sym h.known ∙ e))
        h.same

  -- After an attempt the tracker agrees, and has the file if the attempt is answered.
  post-Published :
      (delivery : Delivery) (t : Tracker)
      → Agreed meta t
      → Agreed meta (post_announcement delivery (some body) t).0
        × (is_ok (post_announcement delivery (some body) t).1 ≡ true
            → Published meta addr (post_announcement delivery (some body) t).0)
  unfolding post_announcement
  post-Published lost t h = (h, λ e. cc)
  post-Published (unanswered uploaded now) t h = rw (handle_announce_post uploaded now body t) (
    Published-Agreed (announce uploaded now body t) (announce-Published uploaded now t h),
    λ e. cc,
  )
  post-Published (answered uploaded now) t h =
      let p = announce-Published uploaded now t h in
      rw (handle_announce_post uploaded now body t)
        (Published-Agreed (announce uploaded now body t) p, λ e. p)

  pub rounds-Published :
      (deliveries : ℕ → Delivery) (left attempt : ℕ) (t : Tracker)
      → Agreed meta t
      → (announce_rounds deliveries left attempt (some body) t).1 ≡ true
      → Published meta addr (announce_rounds deliveries left attempt (some body) t).0
  unfolding announce_rounds
  rounds-Published deliveries zero attempt t h e = cc
  rounds-Published deliveries (suc left) attempt t h e =
      let r = post_announcement (deliveries attempt) (some body) t in
      let (agreed, ok) = post-Published (deliveries attempt) t h in
      elim (Bool-cases (is_ok r.1)) [
        | inl f ↦ rw f (ok f)
        | inr f ↦
            rw f (rounds-Published deliveries left (attempt + 1) r.0 agreed (ground (arith, f, e)))
      ]
