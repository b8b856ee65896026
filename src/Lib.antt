-- ===== src/Lib.antt =====
-- The Synology CSI driver, which Kubernetes asks for volumes on Synology DiskStations (DSMs). The paths
-- below are in K3S/Installing the Synology CSI Driver with the Snapshot feature in k3s/02 - synology-csi.
--
-- The program's parts and the files that model them:
-- * pkg/driver/controllerserver.go, the CSI controller handlers: Controller. A handler is a function
--   from the fields of the request that it reads to an action on the state of the service. CreateVolume,
--   DeleteVolume, ControllerExpandVolume and ValidateVolumeCapabilities are handle_create_volume and so
--   on in Controller/Create; the loop that ListVolumes and ListSnapshots share is page_loop in
--   Controller/Paging; these two and GetCapacity are in Controller/Listing; CreateSnapshot and
--   DeleteSnapshot are in Controller/Snapshot.
-- * pkg/interfaces/IDsmService.go, what the handlers call: the record DsmService. The handlers take any
--   such service; dsm_service is the one of pkg/dsm/service.
-- * pkg/dsm/service/dsm.go and share_volume.go, the service: Service. Location chooses where a LUN goes,
--   Registry keeps the DSMs, Listing finds volumes, Iscsi and Smb make one volume on one DSM, Volumes has
--   CreateVolume, DeleteVolume and ExpandVolume, Snapshots the snapshots, Convert the records for
--   Kubernetes. The service takes the calls to a DSM as a record, Backend; WebBackend fills it.
-- * pkg/dsm/webapi, the calls to a DSM over HTTP: WebApi. Session sends a request and logs in again,
--   Request has what the calls share, Iscsi, Share and Storage have the calls, Errors the error codes,
--   Types and Zero the records.
-- * pkg/dsm/webapi/utils.go, the other controller of a DSM with two: WebApi/Controllers.
-- * pkg/driver/nodeserver.go, the CSI node handlers: Node. Stage has NodeStageVolume and
--   NodeUnstageVolume, Publish NodePublishVolume and NodeUnpublishVolume, Stats the other handlers;
--   Target has the login to a target and the path of a volume, Mounts the mount points, Smb the
--   permissions on a share. They use the service by the record NodeService, and the node's host by the
--   record Host. pkg/driver/initiator.go is Node/Sessions; pkg/driver/multipath.go is Node/Multipath and
--   Node/Devices. Node/Disciplined has one lemma per action for whatever its calls
--   have in common; Node/Calm applies these to run-time panics, Node/Mounted to the table of mounts.
-- * pkg/models, pkg/utils, pkg/driver/driver.go and utils.go: Models, Utils and Driver; the identity
--   server is Driver/Identity and the start in main.go Driver/Start.
-- * synocli/cmd, the command line tool: Cli chooses the DSMs and logs in, Cli/Shares and Cli/Lists are
--   the commands; the value of a command is what it prints at last.
-- * Base has what all of these share: Go's integers, strings, and functions that return an error.
--
-- How the code is read:
-- * A Go function that returns a value and an error is an action (Exec): a function of the state that
--   gives a value or an error, and the state. What was done before an error stays done.
-- * A Go string is the list of its bytes; strings.ToLower is that of ASCII text. Go's int64 wraps around.
--   The texts of errors and the log are left out; errors that the code tells apart are constructors.
--   Dereferencing a nil volume is the error nil_dereference, and reading a slice out of range is
--   index_out_of_range: the run-time panics.
-- * strings.Fields, strings.TrimSpace and strings.EqualFold are those of ASCII text; strings.Split is
--   that of a separator of one byte.
-- * The map of DSMs is the list of its values in the order in which `range` visits them; each loop of one
--   call visits them in the same order. sort.Sort is an insertion sort; nothing is said of items that the
--   comparison does not tell apart.
-- * The session id of a DSM is kept in the state, by the address of the DSM.
-- * Outside the code, and so parameters: the HTTP exchange and the reading of JSON (WebApi/Network), the
--   calls to a DSM as the service sees them, time.Parse, and the number of times that the backoff lets
--   waitCloneFinished ask again (Backend); the commands, mounts, files and the resolver of the node, the
--   number of ticks that waitForDevicePathToExist sees before its timer, and the number of repetitions
--   that the backoff lets mountSensitiveWithRetry make (Node/Host). These three numbers bound the only
--   loops that neither run over a list nor have a fixed number of rounds.
-- * The variable MultipathEnabled is a field of NodeServer. The field Controller of a DSM, the channels
--   and tickers, and the initiator's unused credentials are left out.
--
-- What is not modelled: the gRPC server (pkg/driver/grpc.go) and the logger, which are glue around
-- libraries; the reading of the configuration file and of flags; and how synocli prints its tables.
pub mod Base
pub mod Utils
pub mod WebApi
pub mod Models
pub mod Backend
pub mod WebBackend
pub mod Service
pub mod NodeService
pub mod Node
pub mod DsmService
pub mod Driver
pub mod Controller
pub mod Cli
mod Tests
