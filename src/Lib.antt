-- ===== src/Lib.antt =====
-- Polarix: a framework for bots of the QQ platform, and its plugins. This library models the parts that
-- decide what the program does; the paths below are those of the repository.
--
-- How the parts work together. Events reach the program over a WebSocket (lib/gateway) or over HTTP.
-- The middleware (lib/middleware) finds the command of a message among those that the plugins have
-- registered (lib/plugin), asks for the user's role and the plugin's access rules, and runs the
-- command's handler; a click on a button goes to the ring of callbacks (lib/buttons), which also
-- builds the keyboards that a message carries. Handlers answer through lib/message, start jobs through
-- lib/schedule, open temporary routes through lib/context, and keep data in lib/storage. The panel
-- (lib/admin) changes the plugins' settings. Of the plugins, push sends messages that come in over
-- HTTP, sshauth asks a group to approve SSH logins that come in over a socket, and group verifies new
-- members by mail.
--
-- The files:
-- - Prelude: text as lists of code points, with Go's string functions; maps with text keys as
--   association lists; ints with their wrap-around and strconv.Atoi and Itoa; lists and tests.
-- - Buttons/Callback (lib/buttons/callback.go): RegisterCallbackFunc and InvokeCallback are
--   register_callback_func and invoke_callback on the record Table, which holds the package's
--   variables and its lock.
-- - Buttons/Keyboard (lib/buttons/buttons.go, marshal.go, enum.go): AppendButton, the setters of a
--   button and GenerateJson; the JSON encoder is an argument.
-- - Schedule/Cron (lib/schedule/cron.go): parseCron, parseField and match. The loop over a range has
--   fuel, last + 5 rounds for a last value of at most 59; Values shows that more rounds change nothing.
-- - Schedule/Registry (lib/schedule/schedule.go): the exported operations on the record Scheduler, a
--   tick of the cron loop, tryFire and applyJobTarget. A goroutine that an operation starts is in the
--   state as a Loop until `leave`, a round of its select in which it reads stopCh again, lets it return.
--   The context and the recovery of panics in fire are left out.
-- - Gateway/Client (lib/gateway/client.go, model.go): connect and all it calls, readLoop as recursion
--   over what the reads return, the heartbeat's tick and the backoff of Start; the loop is in Reading,
--   connect and the backoff are in Connecting. The network, the clock, the tokens and JSON are
--   arguments. resolveGatewayURL is left out.
-- - Plugin/Commands (lib/plugin/register.go, structer.go, lib/utils): the tree of commands, its
--   registration, ResolveCommand and subCommandHandleFunc. A command is a value; the source's pointer
--   comparison of two commands of one tree is one of their paths.
-- - Plugin/Access (lib/plugin/register.go): AccessConfig and CanUse. unicode.ToLower beyond ASCII is an
--   argument.
-- - Plugin/Settings (lib/plugin/register.go, structer.go, lib/admin/admin.go): LoadConfigurations,
--   PrepareConfiguration, ApplyConfiguration, ConfiguredPlugins, and the panel's PUT of a plugin's
--   settings as put_plugin. What a plugin does with its settings is a function of the plugin, which does
--   not change the map that it is given; whether the file was written is an argument. An `any` is a
--   Value, a float a mantissa with powers of two.
-- - Plugin/Managed (lib/plugin/register.go): ManagedPlugins and ManagedPluginByID, over the settings and
--   the access rules.
-- - Middleware (lib/middleware/handle.go, lib/constant/role.go): ProcessPayload, from the payload to
--   the handler, hook or callback that it calls.
-- - Message (lib/message/base.go, ref.go): Send and the counter of replies.
-- - Routes (lib/context/web.go): registering and serving temporary routes.
-- - Storage (lib/storage/storage.go): Open, Close and the operations of a Store. SQLite and JSON are
--   arguments, with their laws as fields of the records Sql and Json in Storage/Database; Storage/Memory
--   is a database on which the laws hold. Storage/Map is the map that a store promises to be.
-- - QqApi (lib/qqapi/client.go): getAccessToken, as a first look and the rest of it.
-- - Push (plugins/push/push.go): the commands and HTTPHandle, over the storage.
-- - Guard (plugins/group/guard.go): the verification of new group members, over the storage and the
--   temporary routes. testMathVerify and the handler of the route are left out.
-- - SshAuth (plugins/sshauth/sshauth.go): the pending requests as a store of shared objects, each
--   function of the plugin as a step of SshAuth/Steps. processApprovalRequest is a sequence of steps:
--   accept_request with its guards, advance_request once for each access to the counter and the maps,
--   and finish_send after the sending of the message; others, restarts too, may come between any two.
--   The dialling of the socket, statusCommand and the texts of the messages are left out.
--
-- Bounds: an int is an integer with 64-bit wrap-around where the source adds to it, a counter of type
-- uint8 wraps at 2 ^ 8, and itoa_from has as fuel the 20 digits that an int can have. Each operation
-- that holds a lock in the source is one step.
--
-- Not modelled: SQLite itself, the other methods of the API client and other HTTP requests, the other handlers of the panel,
-- the configuration file, mail, images and templates, and the plugins but push, sshauth and group, which format
-- texts and call remote services.
pub mod Prelude
pub mod Buttons
pub mod Gateway
pub mod Guard
pub mod Message
pub mod Middleware
pub mod Plugin
pub mod Push
pub mod QqApi
pub mod Routes
pub mod Schedule
pub mod SshAuth
pub mod Storage
