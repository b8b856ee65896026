-- ===== src/Node/Mounted/Calls.antt =====
-- pkg/driver/nodeserver.go: the calls that mount and unmount, against the table of mounts.
use reference_guides.Base.{
  ℕ, zero, suc, ◌≤◌, GoString, ◌==◌, Bool, true, false, Bool-cases, inl, inr, List, [], ◌∷◌, Exec,
  ◌≡◌, refl, sym, ◌∙◌, ap, eq_iff, if◌then◌else◌, arith, subst,
}
use reference_guides.Node.Server.{NodeServer, StateOf}
use reference_guides.Node.Types.{NodeStageVolumeRequest}
use reference_guides.Node.Publish.{
  NodePublishVolumeRequest, handle_node_publish_volume, handle_node_unpublish_volume,
}
use reference_guides.Node.Stage.{handle_node_stage_volume, handle_node_unstage_volume}
use reference_guides.Node.Stats.{is_block}
use reference_guides.Node.Mounted.Tables.{
  Table, plus, plus_one, minus_one, Spec, Publishes, Releases, is_ok, MountTable,
}
use reference_guides.Node.Mounted.Publishing.{publish-Does}
use reference_guides.Node.Mounted.Releasing.{unstage-Does, unpublish-Does}
use reference_guides.Node.Mounted.Lun.{StagesFor}
use reference_guides.Node.Mounted.Staging.{stage-Does}

-- A call of the node server that mounts or unmounts; the release calls have a volume id and a path.
pub data NodeCall : Type 0 where
  stage_volume : NodeStageVolumeRequest → NodeCall
  unstage_volume : GoString → GoString → NodeCall
  publish_volume : NodePublishVolumeRequest → NodeCall
  unpublish_volume : GoString → GoString → NodeCall

unfoldable pub handle_node : (ns : NodeServer) → NodeCall → Exec (StateOf ns) Unit
handle_node ns (stage_volume req) = handle_node_stage_volume ns req
handle_node ns (unstage_volume volume_id path) = handle_node_unstage_volume ns volume_id path
handle_node ns (publish_volume req) = handle_node_publish_volume ns req
handle_node ns (unpublish_volume volume_id path) = handle_node_unpublish_volume ns volume_id path

-- What a call may do to the table.
abbrev pub allowed : NodeCall → Spec
allowed (stage_volume req) = StagesFor (is_block req.volume_capability) req.staging_target_path
allowed (unstage_volume volume_id path) = Releases path
allowed (publish_volume req) = Publishes req.target_path
allowed (unpublish_volume volume_id path) = Releases path

-- The state after calls one upon the other.
unfoldable pub handle_all : (ns : NodeServer) → List NodeCall → StateOf ns → StateOf ns
unfolding handle_node
handle_all ns [] s = s
handle_all ns (c ∷ calls) s = handle_all ns calls (handle_node ns c s).1

-- Whether the call may stage a file system on the path.
abbrev pub stages_at : GoString → NodeCall → Bool
stages_at path (stage_volume req) =
    if is_block req.volume_capability then false else path == req.staging_target_path
stages_at path c = false

abbrev pub NeverStages : GoString → List NodeCall → Type 0
NeverStages path [] = Unit
NeverStages path (c ∷ calls) = (stages_at path c ≡ false) × NeverStages path calls

plus_one_miss : (path p : GoString) (t : Table) → (p == path) ≡ false → plus_one path t p ≡ t p
plus_one_miss path p t e = rw e refl

minus_one_below : (path p : GoString) (t : Table) → minus_one path t p ≤ t p
minus_one_below path p t = elim (Bool-cases (p == path)) [
  | inl e ↦ rw e (omega arith)
  | inr e ↦ rw e (omega arith)
]

-- No more than one file system on the path.
abbrev AtMostOne : GoString → Table → Type 0
AtMostOne path t = t path ≤ 1

same : (p : GoString) (t u : Table) → u ≡ t → AtMostOne p t → AtMostOne p u
same p t u e = subst (AtMostOne p) (sym e)

one_more :
    (path p : GoString) (t u : Table)
    → u ≡ plus_one path t
    → t path ≡ 0
    → AtMostOne p t
    → AtMostOne p u
one_more path p t u e free h = same p (plus_one path t) u e (elim (Bool-cases (p == path)) [
  | inl hit ↦ let at : t p ≡ 0 = ap t ((eq_iff p path).0 hit) ∙ free in rw hit (omega (arith, at))
  | inr miss ↦ rw miss h
])

published_once :
    (path p : GoString) (ok_or_not : Bool) (t u : Table)
    → Publishes path ok_or_not t u
    → AtMostOne p t
    → AtMostOne p u
published_once path p true t u (inl (e, some_there)) h = same p t u e h
published_once path p true t u (inr (e, free)) h = one_more path p t u e free h
published_once path p false t u (inl e) h = same p t u e h
published_once path p false t u (inr (e, free)) h = one_more path p t u e free h

one_less : (path p : GoString) (t u : Table) → u ≡ minus_one path t → AtMostOne p t → AtMostOne p u
one_less path p t u e h =
    let below : minus_one path t p ≤ t p = minus_one_below path p t in
    same p (minus_one path t) u e (omega (arith, below, h))

released_once :
    (path p : GoString) (ok_or_not : Bool) (t u : Table)
    → Releases path ok_or_not t u
    → AtMostOne p t
    → AtMostOne p u
released_once path p true t u e h = one_less path p t u e h
released_once path p false t u (inl e) h = same p t u e h
released_once path p false t u (inr e) h = one_less path p t u e h

plus_elsewhere :
    (k : ℕ) (path p : GoString) (t : Table) → (p == path) ≡ false → plus k path t p ≡ t p
unfolding plus
plus_elsewhere zero path p t e = refl
plus_elsewhere (suc k) path p t e =
    plus_elsewhere k path p (plus_one path t) e ∙ plus_one_miss path p t e

staged_once :
    (block : Bool) (path p : GoString) (ok_or_not : Bool) (t u : Table)
    → (if block then false else p == path) ≡ false
    → StagesFor block path ok_or_not t u
    → AtMostOne p t
    → AtMostOne p u
staged_once true path p ok_or_not t u elsewhere e h = same p t u e h
staged_once false path p b t u elsewhere ((k, e), there) h =
    same p (plus k path t) u e (subst (λ n. n ≤ 1) (sym (plus_elsewhere k path p t elsewhere)) h)

allowed_once :
    (p : GoString) (c : NodeCall) (ok_or_not : Bool) (t u : Table)
    → stages_at p c ≡ false
    → allowed c ok_or_not t u
    → AtMostOne p t
    → AtMostOne p u
allowed_once p (stage_volume req) b t u elsewhere =
    staged_once (is_block req.volume_capability) req.staging_target_path p b t u elsewhere
allowed_once p (unstage_volume volume_id path) b t u elsewhere = released_once path p b t u
allowed_once p (publish_volume req) b t u elsewhere = published_once req.target_path p b t u
allowed_once p (unpublish_volume volume_id path) b t u elsewhere = released_once path p b t u

module _ (ns : NodeServer) (T : MountTable ns.host) where
  -- On a host whose mounts and unmounts change nothing but the mounts of the path that they are given, by
  -- one, or where they fail by none or one, and whose answers about mount points are right: NodePublishVolume
  -- mounts at most one file system, and that only on a target path that has none; NodeStageVolume only
  -- adds mounts on the staging path, and nothing for a block volume; where these two succeed for a volume
  -- that is mounted, the path has a mount. NodeUnpublishVolume and NodeUnstageVolume take one mount from
  -- the path where they succeed and has one, and where they fail one or none. All of this holds also
  -- where a later step of the call fails, and no other path is touched.
  pub handle_node_refines_table :
      (c : NodeCall) (s : StateOf ns)
      → allowed c (is_ok (handle_node ns c s).0) (T.table s.1) (T.table (handle_node ns c s).1.1)
  unfolding handle_node
  handle_node_refines_table (stage_volume req) s = (stage-Does ns T req).does s
  handle_node_refines_table (unstage_volume volume_id path) s =
      (unstage-Does ns T volume_id path).does s
  handle_node_refines_table (publish_volume req) s = (publish-Does ns T req).does s
  handle_node_refines_table (unpublish_volume volume_id path) s =
      (unpublish-Does ns T volume_id path).does s

  -- On a host whose mounts and unmounts change nothing but the mounts of the path that they are given, by
  -- one, or where they fail by none or one, and whose answers about mount points are right: whatever calls
  -- of the four are made, and however they end, a path that none of them stages a file system on and that
  -- has at most one file system mounted on it still has at most one afterwards.
  pub handle_all-AtMostOne :
      (path : GoString) (calls : List NodeCall) (s : StateOf ns)
      → NeverStages path calls
      → T.table s.1 path ≤ 1
      → T.table (handle_all ns calls s).1 path ≤ 1
  unfolding handle_all
  handle_all-AtMostOne path [] s elsewhere h = h
  handle_all-AtMostOne path (c ∷ calls) s (here, later) h =
      handle_all-AtMostOne path calls (handle_node ns c s).1 later (
        allowed_once path c (is_ok (handle_node ns c s).0) (T.table s.1)
          (T.table (handle_node ns c s).1.1) here (handle_node_refines_table c s) h)
