-- ===== src/Lib.antt =====
-- ksdns: a Kubernetes operator for DNS (controllers/dns, apis/dns/v1alpha1), and zupd, a CoreDNS
-- with a plugin that serves the zones that the operator writes and takes dynamic updates to them
-- (pkg/zupd/plugin/dynamicupdate, pkg/zupd/api/v1alpha1).
--
-- The operator turns each zone of a Ksdns object into a `Zone` object that holds the zone's text.
-- zupd's plugin keeps a table of zones: for each name a static zone, parsed from that text, and a
-- dynamic one, which RFC 2136 updates change and which is saved in the object's status. A query is
-- answered from the two merged. A second CoreDNS, also deployed by the operator, transfers the
-- zones from zupd.
--
-- Zupd, the plugin:
--   Coredns    what the plugin takes from CoreDNS, miekg/dns and the Kubernetes client, as records
--              of operations and laws, and the API types of zone_types.go
--   Zones      the table, and `DeleteZone` (dynamicupdate.go)
--   State      the plugin's state, a request and a reply
--   Update     the loop over the records of an update, and `updateType`
--   Merge      `Merge` (merge.go), `Transfer` (xfer.go), `Reload` (reload.go)
--   Serve      `ServeDNS`: updates and queries
--   Reconcile  the controller that follows the objects (zone_controller.go)
--   Initialize `initialize` (setup.go)
--   Manager    `NewManager` (manager.go) and `Ready` (ready.go)
--   Setup      `setup` (setup.go), with the hooks that caddy runs at the start and the end
--   Locks      the lock of one dynamic zone, taken by updates and by `Merge`, with the handlers
--              interleaved in any order
--   Reads      a request that is no update, read by read, as `ServeDNS` and `Merge` read the table
--              with no lock, with other requests and object events in between
--   Quiet      requests, changes of the cluster, and events that find no object being deleted
--   Invariant  what every table satisfies; System: sequences of requests, object events and changes
--              of the cluster; Spec: the store of zones that the plugin stands for, and what changes
--              it;
--              Restart: what is saved, and read back at the start; Status: the methods of a zone's
--              status (zone_types.go)
-- Api, the zone text: Split is `split255`, Records the rest of utils.go with `Record.String` and
--   `ToRfc1035Zone` (ksdns_types.go).
-- Operator: Objects and Kubernetes are the API types and the client; Run the monad of the handlers,
--   with errors and panics; Labels, Corefile and Resources what the objects hold; Retry is
--   `CreateOrUpdateWithRetries` (utils.go); Ensure the steps of coredns.go, zone.go and zupd.go;
--   Reconcile the controller (controller.go); Main the process (main.go).
-- Command, `zupd run`: its flags, loaders and `Run` (cmd/zupd/cmd/run.go), in Build the version
--   texts, in Directives the order of the plugins, in Settings what the `init` functions set, and in
--   Config the root command with `initConfig` (root.go).
-- Deployed joins the two: Access and Launch are zupd with the role, the command line and the files
--   that the operator gives it, Leases the leader election among the zupds of a namespace, and
--   Serving the way of a zone from the Ksdns object to zupd's answers.
-- Prelude holds what the others share; Tests concrete instances.
--
-- State is passed explicitly. A function that returns an error returns it beside the state, which
-- keeps what was written before; a nil pointer that the code follows is a value of its own. The
-- SOA records are pointers that the static and the merged zone share, so their serials are kept in
-- a heap. The loop of `split255` runs on fuel, one more than the length, and the theorem on it
-- shows that this is enough; every other loop is structural.
--
-- In Zupd.Locks each handler is a thread of at most eight steps, and in Zupd.Reads one handler is a
-- sequence of four reads, between which whole requests and events may come; elsewhere a request, an
-- event and a start are one step each.
--
-- The code of other modules is in records of operations: Zupd.Coredns (CoreDNS, miekg/dns, the
-- client), Zupd.Manager.ControllerRuntime, Operator.Kubernetes, Operator.Main.Controllers,
-- Command.Host (caddy, the operating system), Command.Config.Cobra and Viper, and
-- Deployed.Access.Authorizer (the API server's authorizer). What is relied on is in the records of
-- laws beside them, in Operator.Ensure.Stored.UpdateLaws, Operator.Retry.Frame.FrameLaws,
-- Api.Records.Serials.ShowsSerial, Deployed.Leases.Leases and Deployed.Serving.OneServer, and for the order of the plugins in Command.Directives.
--
-- Not modelled: reads of the table that see a write half done, logging and metrics, generated deep
-- copies, the list of plugins that zupd is built with, the registration of schemes and controllers
-- with controller-runtime, the random bytes of the TSIG secret and the bodies of errors that the
-- code only hands on.
pub mod Prelude
pub mod Zupd
pub mod Api
pub mod Operator
pub mod Command
pub mod Deployed
pub mod Tests
