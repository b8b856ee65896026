-- ===== src/Controller/Listing/Complete.antt =====
-- pkg/driver/controllerserver.go: the pages of ListVolumes and ListSnapshots give the whole list.
use mathlib.Core.Option
use mathlib.Core.List.{Perm}
use reference_guides.Base.{
  suc, ℤ, pos, ltb_ℤ, ◌<ℤ◌, GoString, ◌≡◌, ◌≢◌, refl, ap, ◌∙◌, fun_ext, Bool, true, false, keep,
  length, All, Distinct, sort, sort-perm, length-sort, All-sort, Distinct-sort, map, some, List, [],
  ◌∷◌, arith, Result,
}
use reference_guides.Models.{K8sVolumeRespSpec, K8sSnapshotRespSpec, volume_less, snapshot_less}
use reference_guides.DsmService.{DsmService}
use reference_guides.Controller.Types.{CsiVolume, CsiSnapshot}
use reference_guides.Controller.Paging.{entries_of, map_result, list_page}
use reference_guides.Controller.Paging.Gather.{ask, gather, gather_complete, gather-map, converted}
use reference_guides.Controller.Listing.{
  volume_entry, snapshot_entry, is_wanted, handle_list_volumes, handle_list_snapshots,
  snapshots_from,
}

keep_all : {A : Type 0} (xs : List A) → keep (λ x. true) xs ≡ xs
keep_all [] = refl
keep_all (x ∷ xs) = ap (λ t. x ∷ t) (keep_all xs)

not_negative : (n : ℤ) → pos 0 <ℤ n → ltb_ℤ n (pos 0) ≡ false
not_negative n h = ground arith

gather_sorted :
    {A : Type 0} (id_of : A → GoString) (is_shown : A → Bool) (less : A → A → Bool)
    (max_entries : ℤ) (xs : List A)
    → pos 0 <ℤ max_entries
    → Distinct id_of xs
    → All (λ x. id_of x ≢ []) xs
    → gather (ask id_of is_shown max_entries (sort less xs)) (suc (length xs)) []
      ≡ some (keep is_shown (sort less xs))
gather_sorted id_of is_shown less max_entries xs h d named = rw (← length-sort less xs) (
    gather_complete id_of is_shown max_entries (sort less xs) h (Distinct-sort less id_of xs d)
      (All-sort less (λ x. id_of x ≢ []) xs named))

module _ (S : DsmService) where
  open S use {State, list_volumes}

  abbrev pub ask_volumes : ℤ → State → GoString → Result (List CsiVolume × GoString)
  ask_volumes max_entries s token = (handle_list_volumes S max_entries token s).0

  abbrev sorted_page :
      ℤ → List K8sVolumeRespSpec → GoString → Result (List K8sVolumeRespSpec × GoString)
  sorted_page max_entries vs token =
      list_page (λ v. v.volume_id) (λ v. true) max_entries token (sort volume_less vs)

  handle_list_volumes_lem :
      (max_entries : ℤ) (token : GoString) (s : State)
      → pos 0 <ℤ max_entries
      → handle_list_volumes S max_entries token s ≡ (
        map_result (entries_of volume_entry) (sorted_page max_entries (list_volumes s).0 token),
        (list_volumes s).1,
      )
  unfolding handle_list_volumes
  handle_list_volumes_lem max_entries token s h = rw (not_negative max_entries h) refl

  ask_volumes_lem :
      (max_entries : ℤ) (s : State) (vs : List K8sVolumeRespSpec)
      → pos 0 <ℤ max_entries
      → (list_volumes s).0 ≡ vs
      → ask_volumes max_entries s ≡ converted volume_entry (sorted_page max_entries vs)
  ask_volumes_lem max_entries s vs h e = fun_ext λ token.
      ap (λ r. r.0) (handle_list_volumes_lem max_entries token s h)
      ∙ ap (λ l. converted volume_entry (sorted_page max_entries l) token) e

  -- Where the ids of the volumes are different and not empty, and nothing changes between the calls: a
  -- client that follows nextToken through ListVolumes with a positive maxEntries gets every volume once,
  -- in the order in which the handler sorts them, within one call more than there are volumes.
  pub list_volumes_complete :
      (max_entries : ℤ) (s : State) (vs : List K8sVolumeRespSpec)
      → pos 0 <ℤ max_entries
      → (list_volumes s).0 ≡ vs
      → Distinct (λ v. v.volume_id) vs
      → All (λ v. v.volume_id ≢ []) vs
      → (gather (ask_volumes max_entries s) (suc (length vs)) []
          ≡ some (map volume_entry (sort volume_less vs)))
        × Perm (sort volume_less vs) vs
  list_volumes_complete max_entries s vs h e d named = (
    ap (λ asked. gather asked (suc (length vs)) []) (ask_volumes_lem max_entries s vs h e)
        ∙ gather-map volume_entry (sorted_page max_entries vs) (suc (length vs)) []
        ∙ ap (Option.map (map volume_entry)) (
            gather_sorted (λ v. v.volume_id) (λ v. true) volume_less max_entries vs h d named
            ∙ ap some (keep_all (sort volume_less vs))),
    sort-perm volume_less vs,
  )

module _ (S : DsmService) where
  open S use {State}

  abbrev pub ask_snapshots :
      GoString → GoString → ℤ → State → GoString → Result (List CsiSnapshot × GoString)
  ask_snapshots src_vol_id snapshot_id max_entries s token =
      (handle_list_snapshots S src_vol_id snapshot_id max_entries token s).0

  abbrev wanted_page :
      GoString
      → ℤ
      → List K8sSnapshotRespSpec
      → GoString
      → Result (List K8sSnapshotRespSpec × GoString)
  wanted_page snapshot_id max_entries snaps token =
      list_page (λ x. x.uuid) (is_wanted snapshot_id) max_entries token (sort snapshot_less snaps)

  handle_list_snapshots_lem :
      (src_vol_id snapshot_id : GoString) (max_entries : ℤ) (token : GoString) (s : State)
      → pos 0 <ℤ max_entries
      → handle_list_snapshots S src_vol_id snapshot_id max_entries token s ≡ (
        map_result
            (entries_of snapshot_entry)
            (wanted_page snapshot_id max_entries (snapshots_from S src_vol_id s).0 token),
        (snapshots_from S src_vol_id s).1,
      )
  unfolding handle_list_snapshots
  handle_list_snapshots_lem src_vol_id snapshot_id max_entries token s h =
      rw (not_negative max_entries h) refl

  ask_snapshots_lem :
      (src_vol_id snapshot_id : GoString) (max_entries : ℤ) (s : State)
      (snaps : List K8sSnapshotRespSpec)
      → pos 0 <ℤ max_entries
      → (snapshots_from S src_vol_id s).0 ≡ snaps
      → ask_snapshots src_vol_id snapshot_id max_entries s
        ≡ converted snapshot_entry (wanted_page snapshot_id max_entries snaps)
  ask_snapshots_lem src_vol_id snapshot_id max_entries s snaps h e = fun_ext λ token.
      ap (λ r. r.0) (handle_list_snapshots_lem src_vol_id snapshot_id max_entries token s h)
      ∙ ap (λ l. converted snapshot_entry (wanted_page snapshot_id max_entries l) token) e

  -- Where the uuids of the snapshots are different and not empty, and nothing changes between the calls:
  -- a client that follows nextToken through ListSnapshots with a positive maxEntries gets every snapshot
  -- that its filters let through, once, in the order in which the handler sorts them, within one call more
  -- than there are snapshots.
  pub list_snapshots_complete :
      (src_vol_id snapshot_id : GoString) (max_entries : ℤ) (s : State)
      (snaps : List K8sSnapshotRespSpec)
      → pos 0 <ℤ max_entries
      → (snapshots_from S src_vol_id s).0 ≡ snaps
      → Distinct (λ x. x.uuid) snaps
      → All (λ x. x.uuid ≢ []) snaps
      → gather (ask_snapshots src_vol_id snapshot_id max_entries s) (suc (length snaps)) []
        ≡ some (map snapshot_entry (keep (is_wanted snapshot_id) (sort snapshot_less snaps)))
  list_snapshots_complete src_vol_id snapshot_id max_entries s snaps h e d named =
      ap (λ asked. gather asked (suc (length snaps)) [])
        (ask_snapshots_lem src_vol_id snapshot_id max_entries s snaps h e)
      ∙ gather-map snapshot_entry (wanted_page snapshot_id max_entries snaps) (suc (length snaps))
          []
      ∙ ap (Option.map (map snapshot_entry)) (
          gather_sorted (λ x. x.uuid) (is_wanted snapshot_id) snapshot_less max_entries snaps h d
            named)
