-- ===== src/WebApi/Network.antt =====
-- What lies outside the driver when it calls a DSM: the HTTP exchange (net/http), the reading of the JSON
-- text into the record that the caller names (encoding/json with the tags of the records), the resolver
-- and a trial connection (net).
use reference_guides.Base.{ℕ, ℤ, pos, GoString, Bool, Option, [], List}
use reference_guides.WebApi.Types.{
  LunInfo, TargetInfo, SnapshotInfo, VolInfo, DsmInfo, DsmSysInfo, ShareInfo, ShareSnapshotInfo,
  LunDevAttrib, ShareUpdateInfo, SharePermission, NetworkInterface,
}
use reference_guides.Utils.{IpAddress}
use reference_guides.WebApi.Zero

-- A value of url.Values. The text of a quoted, numeric or marshalled value is left to strconv and
-- encoding/json: `quote s` is strconv.Quote(s), `quote_list s` is [strconv.Quote(s)], `ids` is the
-- bracketed strings.Join(…, ","), and a record stands for its JSON text.
pub data Value : Type 0 where
  text : GoString → Value
  quote : GoString → Value
  quote_list : GoString → Value
  int : ℤ → Value
  bool : Bool → Value
  ids : List GoString → Value
  dev_attribs : List LunDevAttrib → Value
  share : ShareInfo → Value
  share_update : ShareUpdateInfo → Value
  snap_info : GoString → Bool → Value
  permissions : List SharePermission → Value

-- url.Values in the order of the calls of Add.
abbrev pub Params : Type 0
Params = List (GoString × Value)

-- The argument `apiTemplate` of sendRequest: which record the data are read into.
pub data Template : Type 0 where
  login_resp lun_infos lun target_infos target : Template
  lun_create_resp lun_clone_resp snapshot_create_resp snapshot_clone_resp trg_create_resp : Template
  snapshots snapshot vol_infos vol dsm_info dsm_sys_info : Template
  share_info share_infos share_create_resp snap_time share_snapshots objmap nothing : Template
  network_interfaces share_permissions : Template

-- A response with one field is that field. Of `objmap` only the number of its items is read.
abbrev pub Content : Template → Type 0
Content login_resp = GoString
Content lun_infos = List LunInfo
Content lun = LunInfo
Content target_infos = List TargetInfo
Content target = TargetInfo
Content lun_create_resp = GoString
Content lun_clone_resp = GoString
Content snapshot_create_resp = GoString
Content snapshot_clone_resp = GoString
Content trg_create_resp = ℤ
Content snapshots = List SnapshotInfo
Content snapshot = SnapshotInfo
Content vol_infos = List VolInfo
Content vol = VolInfo
Content dsm_info = DsmInfo
Content dsm_sys_info = DsmSysInfo
Content share_info = ShareInfo
Content share_infos = List ShareInfo
Content share_create_resp = GoString
Content snap_time = GoString
Content share_snapshots = List ShareSnapshotInfo
Content objmap = ℕ
Content nothing = Unit
Content network_interfaces = List NetworkInterface
Content share_permissions = List SharePermission

-- The zero value that the caller passes in.
abbrev pub empty : (t : Template) → Content t
empty login_resp = []
empty lun_infos = []
empty lun = Zero.lun_info
empty target_infos = []
empty target = Zero.target_info
empty lun_create_resp = []
empty lun_clone_resp = []
empty snapshot_create_resp = []
empty snapshot_clone_resp = []
empty trg_create_resp = pos 0
empty snapshots = []
empty snapshot = Zero.snapshot_info
empty vol_infos = []
empty vol = Zero.vol_info
empty dsm_info = Zero.dsm_info
empty dsm_sys_info = Zero.dsm_sys_info
empty share_info = Zero.share_info
empty share_infos = []
empty share_create_resp = []
empty snap_time = []
empty share_snapshots = []
empty objmap = 0
empty nothing = tt
empty network_interfaces = []
empty share_permissions = []

-- What goes out: the URL's parts, the cookie `id` where the session has one, and the parameters.
pub record Query : Type 0 where
  pub https : Bool
  pub host : GoString
  pub port : ℤ
  pub cgi_path : GoString
  pub post : Bool
  pub cookie : Option GoString
  pub params : Params

-- What comes back. `unreachable` is an error of url.Parse or of client.Do; a body is no JSON envelope,
-- or an envelope with its flag, its error code and its data.
pub data Body (Json : Type 0) : Type 0 where
  malformed : Body Json
  envelope : Bool → ℤ → Option Json → Body Json

pub data HttpReply (Json : Type 0) : Type 0 where
  unreachable : HttpReply Json
  answer : ℤ → Body Json → HttpReply Json

-- `unmarshal` is none where json.Unmarshal returns an error. `look_up_ip` is net.LookupIP, with no address
-- where it returns an error, and `dial` whether net.DialTimeout gets a connection.
pub record Network : Type 1 where
  pub State : Type 0
  pub Json : Type 0
  pub unmarshal : (t : Template) → Json → Option (Content t)
  pub exchange : Query → State → HttpReply Json × State
  pub look_up_ip : GoString → State → List IpAddress × State
  pub dial : GoString → ℤ → State → Bool × State
