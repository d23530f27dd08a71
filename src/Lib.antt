-- ===== src/Lib.antt =====
-- tilt-apiserver: an API server in the style of Kubernetes that keeps its objects in memory or in
-- files. This library models its storage (pkg/storage/filepath), the registration of resources and
-- their strategies (pkg/server/builder), and the options, the TLS configuration and the start of
-- the server (pkg/server/options, pkg/server/start), and proves what makes them correct.
--
-- Storage. Storage/MemoryFs.antt and Storage/RealFs.antt are the two file systems of fs.go, method
-- by method. A method is a function from a state to its result and the next state; it runs under
-- the file system's mutex. The maps of MemoryFS are the trees of Storage/Tree.antt, and a change
-- of a map that `ensureDir` returned is a change at its path in the tree. Storage/Spec.antt is
-- what a client may rely on: files with versions under locations, and one revision.
-- Storage/MemoryFs/Refines.antt is about MemoryFS against it, and Storage/MemoryFs/Winner.antt
-- about two writes of one version; Storage/Contract.antt is the interface that the REST storage's
-- theorems take, and Storage/Contract/Memory.antt fills it. The mutex of RealFS is a part of its
-- state, since its VisitDir calls back while it holds it; `none` is an operation that never
-- returns. Storage/Version.antt is version.go. Revisions wrap at 2^64 as `uint64` does.
--
-- Storage/Rest.antt and its children are `filepathREST` of jsonfile_rest.go, over any file system:
-- get, list, delete_collection (Rest), create (Rest/Write), guaranteed_update and update
-- (Rest/Update, with the function it retries in Rest/TryUpdate), delete (Rest/Remove) and watch
-- (Rest/Watch). Rest/Found and Rest/Walked are about what the walk of a directory finds,
-- Rest/Gathered and Rest/Collection about what List makes of it and what DeleteCollection takes
-- away, and Rest/Complete about both against Get: a client's names and namespaces have no
-- separator there, and the root path is one of plain names (Go/Paths/Plain). Storage/Provider.antt
-- is the constructor, and the provider of jsonfile.go. An operation of the REST storage does not
-- hold the mutex between its calls of the file system: what other users do there is the parameter
-- `Others`. The loop of guaranteedUpdate has the source's own bound of 100 attempts and its error
-- at the end, so there is no fuel to choose. Events are a list in the order they are handed to the
-- watch set. Storage/WatchSet.antt is the watch set of watchset.go, with each watch's goroutine as
-- a step relation: a send on an unbuffered channel happens only where the goroutine waits for it.
-- An update that is taken and does not match is dropped in the step that takes it.
-- Storage/WatchSet/Progress.antt is about a set whose consumers go on reading.
--
-- Builder/Register.antt is builder_resource.go with the builder's maps as association lists,
-- Builder/Shared.antt its two functions that make a storage, with an address for each file system
-- and each watch set that they make, and Builder/Strategy.antt the strategies of rest/strategy.go
-- and rest/status.go, with the optional interfaces of a resource as optional functions, and a
-- panic as `none`. Builder/Manifest.antt is the type of pkg/apis/core/v1alpha1 with its generated
-- copies: a slice points to an array of a heap, so that what a copy shares can be told.
-- Builder/DeepCopy.antt is util/deepcopy.go. Builder/Provider.antt is storage_provider.go: a
-- provider of storage panics, or returns a storage, an error or nothing. Builder/Scheme.antt is
-- AddToScheme of resource/types.go and buildCodec of builder.go, over a scheme of the library;
-- Builder/Options.antt the setters of builder_misc.go and the way from a builder to the options of
-- a server; Builder/Store.antt the constructors of rest/rest.go.
--
-- Server/Serving.antt is options/serving.go with its defaults and flags in Server/Serving/Flags,
-- Server/Tls.antt start/tls_config.go, and Server/Start.antt the validation and the configuration
-- of start/start.go. Server/Run.antt is the run of a server and the command that starts one, with
-- the steps of a run as a list. Server/ApiGroups.antt is apiserver/ext.go, and
-- Server/ApiServer.antt apiserver/apiserver.go and conn.go. Server/Registered is about a builder
-- and the server that is made of it together, and Server/Main.antt is the builder of
-- cmd/apiserver/main.go. Client/Informers.antt is the factory of shared informers, of
-- pkg/generated/informers/externalversions/factory.go.
--
-- The Kubernetes packages, the operating system and the network are parameters: `Machinery`
-- (objects and a codec), `Registry` (the registry's helpers), `Os`, `Serving`, `TlsPackages`,
-- `Startup`, `SchemePackage`, `GenericServer`, `Runner`, `Reflect`, `InformerPackage`. `IsLawful`
-- and `HasOwnErrors` say what the storage relies on: metadata that is read back, and errors that
-- are not taken for the storage's own; `ReadsBack` that what was encoded can be decoded, to the
-- object as the codec writes it, with its kind filled in and its times cut; `KnowsTypes` and
-- `Installs` what is relied on of a scheme and of a server. Of Go's standard library,
-- Go/Paths.antt has the clean paths of path/filepath, and Go/Decimal.antt the decimal text of a
-- uint64, whose twenty digits are its fuel: 2^64 has no more.
--
-- Not modelled: the generated clients, listers and openapi, the vendored packages, the reconciler,
-- how a command line is parsed, what the library's server does with its API groups, the getters of
-- single fields, and logging; the panic of a second Stop of a watch, and that of a storage
-- provider while a server builds its API groups (`new_filepath_rest` itself has it). An error
-- keeps its kind and its name, not its whole text.
pub mod Base
pub mod Go
pub mod Storage
pub mod Builder
pub mod Server
pub mod Client
pub mod Tests
