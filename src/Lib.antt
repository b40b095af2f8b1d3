-- ===== src/Lib.antt =====
-- PlaCoR, a resource oriented computing platform: pods, the processes of an application, share
-- resources by way of a group communication system. This library models the services of a pod
-- (libcor/src/cor/services, libcor/include/cor/services), the groups of resources
-- (libcor/src/cor/elements), the executors, the units that are built on them (units), and the
-- host files of corun (tools/corun), and proves what they keep.
--
-- The parts, and how they interact:
--   * the controller sends and handles the messages between the pods, and hands each to a manager;
--   * the page manager gives out identifiers of resources, from pages that one pod hands out;
--   * a consistency object keeps the replica of one resource in a pod: readers, writers, numbered
--     requests of other controllers, and a token that allows to write;
--   * the mailer has the mailboxes of resources and a queue of outgoing messages;
--   * static and dynamic organizers are the members of a group, kept by a consistency object;
--   * the resource manager keeps the consistency objects of a pod, the context of each resource,
--     references and replicas, searches for resources in the other pods, and counts the messages by
--     which the members of a static group meet;
--   * the pod keeps which resource each thread runs as, and an executor sets it for its task;
--   * the members of a static group send to each other by their ranks, through mailbox elements;
--   * a resource pointer counts itself in the consistency object of its resource;
--   * the units share a range among agents and run tasks in a pool of agents;
--   * a host file tells corun the hosts and ports on which to start pods.
--
-- Files and sources:
--   * Base: tests on numbers, lists; Text: `std::string` as bytes, `std::to_string`, `std::stoul`.
--   * Page: libcor/src/cor/services/page_manager.cpp. Page.Manager has the operations with the
--     names of the source (`GenerateIdp` is `generate_idp`), Page.Cluster all pods with the page
--     messages between them, Page.Unique and Page.Starvation the proofs.
--   * Consistency: libcor/src/cor/services/consistency_object.cpp. Object has the reads and writes,
--     Requests the requests of controllers, Threads the threads of a pod as a machine of events;
--     the methods are cut at their waits, and a wake-up looks at the condition again. Token has
--     all pods of a resource and the token replies under way between them
--     (`HandleTokenUpdateReply`, `SendTokenUpdateReply` of libcor/src/cor/services/controller.cpp).
--   * Names: the names of groups in libcor/src/cor/services/controller.cpp and
--     libcor/src/cor/services/mailer.cpp, and what joins and leaves cause in `HandleMessage`.
--   * Wire: the other Send and Handle methods of libcor/src/cor/services/controller.cpp. Send has
--     the senders, Handle the handlers and the switch of `HandleRegularMessage`, Asked what each
--     message means. The archive of cereal is a parameter that reads back what it writes.
--   * Organizer: libcor/src/cor/elements/static_organizer.cpp and
--     libcor/src/cor/elements/dynamic_organizer.cpp. Members has what they share, with every call
--     of the consistency object as a list of acts; an exception is a result.
--   * Mail: libcor/src/cor/services/mailer.cpp. Mailbox has the mailboxes and both ways to
--     receive, Outgoing the queue, cut where its monitor is left and where `HandleWrite` reads
--     outside of it; Held and Kept say what the queue holds and keeps.
--   * StaticGroup: the barrier of a static group in libcor/src/cor/services/resource_manager.cpp.
--   * Registry: the rest of libcor/src/cor/services/resource_manager.cpp and
--     libcor/include/cor/services/resource_manager.tpp. State has the maps and the lookups, Allocate
--     and Deallocate how resources come and go, with the joins of the organizers of their contexts,
--     Domain the loop of `GetDomainIdp`, Search what pods answer each other. Methods are cut at
--     their waits into pieces, and History has any sequence of pieces.
--   * Start: `Initialize`, `InitializeContext`, `FinalizeContext`, `Finalize` and their handlers in
--     libcor/src/cor/services/controller.cpp, for all pods, with a queue of notices for each;
--     Spawn has the command and the sessions of `Spawn`.
--   * Executor: the active resources and modules of libcor/src/cor/system/pod.cpp, and `Run`,
--     `ChangeIdp` and `ResumeIdp` of libcor/include/cor/elements/executor.tpp. Text.Filename:
--     `get_filename` of libcor/src/cor/utils/utils.cpp.
--   * Pointer: libcor/include/cor/services/resource_ptr.tpp, over a store of consistency objects.
--   * HostFile: `HostFileParser::parse` of tools/corun/host_file_parser.cpp. Line has the
--     expressions and the cuts, File the loop, Written the forms of a line, Accepted and Lines the
--     proofs; the lines of the file are a parameter. Corun is tools/corun/corun.cpp behind its
--     options.
--   * Units: `AgentRange` of units/utils.hpp (Range), and units/pool.cpp (Pool).
--   * Collective: the collective creation of a context, `CreateCollective` of
--     libcor/include/cor/services/controller.tpp with what it calls in
--     libcor/src/cor/services/controller.cpp. Init and First have one pod with the messages that it
--     counts; Creation has all pods, with one member in each, as a relation of steps, in which a
--     wait without a loop may be left by a spurious wake-up, and Origin,
--     Moves, Steps and Agree the invariant and the proofs.
--   * Elements: the mailboxes of libcor/src/cor/elements/mailbox.cpp and the barrier of
--     libcor/src/cor/elements/sbarrier.cpp, over the static organizer and the mailer.
--
-- Mutexes and monitors are the atomicity of the steps; threads, wake-ups and the order of messages
-- are lists of events or a relation of steps, over which the theorems range. Words of 32 and 64
-- bits wrap. Bounds: up to 2^24 - 2 further pages of 256 identifiers, fewer than 2^64 requests of a
-- resource, fewer than 2^32 changes of a group and messages of a round, fewer than 2^32 pods,
-- agents of a range and steps of a collective creation, ranges of 64-bit numbers, and fewer than
-- 2^31 lines of a host file. Recursions are on lists; the digits of a number are written in as many
-- rounds as the number is large, which is more than it has digits; the loop of `GetDomainIdp` is on
-- fuel, and one round more than there were operations is enough.
--
-- Not modelled: the group communication system, cereal, the event loop and the loading of
-- libraries, which are libraries; sessions over SSH, which `Spawn` starts; remote calls;
-- the elements that pass a call on to the pod, such as mutexes and containers; the options
-- of corun, and corx; the programs under examples, tests and cap6. Threads of one pod that hold a
-- resource are modelled one resource at a time.
pub mod Base
pub mod Text
pub mod Page
pub mod Consistency
pub mod Names
pub mod Wire
pub mod Organizer
pub mod Mail
pub mod StaticGroup
pub mod Collective
pub mod Registry
pub mod Units
pub mod Start
pub mod Executor
pub mod Pointer
pub mod HostFile
pub mod Elements
