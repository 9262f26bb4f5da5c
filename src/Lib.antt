-- ===== src/Lib.antt =====
-- Verification of the management application: the API's rules on who may see and change what, where
-- devices stand in racks, which addresses belong to a subnet, what network discovery may probe, and what
-- the SNMP worker takes in, reads from devices and writes to them.
--
-- Paths are from the repository's root. The API is a NestJS application (apps/api/src); a controller
-- calls one service, a service asks the access services first and then reads and writes the database
-- through Prisma. The parts that are modelled, and how they meet:
--
--   Access      apps/api/src/access/access-policy.service.ts and auth/roles.ts. `can_use_ipam`,
--               `can_manage_physical` and `can_manage_device` are the rules over the five
--               application roles; every other access check starts from them.
--   Ipam        apps/api/src/ipam/ipam-access.service.ts. `assert_context` is `assertContext`, to which
--               `assertSubnet`, `assertVlan`, `assertVrf`, `assertSite`, `assertIp`, `assertHost` and
--               `assertSubnetPlacement` lead; `where_for` is `whereFor`, the filter of the listings.
--               A user's groups and the rows of the tables come from `Queries`, one function for each
--               Prisma query, of which nothing is assumed.
--               `Ipam.Planning` is `calculateIpv4SubnetPlan` of apps/api/src/ipam/ipam-advanced.service.ts,
--               with addresses as numbers; the rounded percentage and `usableRange` are left out.
--   Infrastructure
--               apps/api/src/infrastructure/infrastructure-access.service.ts, over a `Store` of the tables
--               it reads. `effective_rules` picks the nearest scope with rules (room, building, site);
--               `assert_room`, `assert_building`, `assert_site`, `assert_rack`, `assert_device` and
--               `assert_interface` are the checks, `visible_rooms` and `visible_buildings` the listings
--               before the ids are taken (`visibleRoomIds`, `visibleBuildingIds`).
--               `Bulk` is `updateDevicesIndividually` of bulk-update.ts; the update of one device is a
--               parameter that reads and changes any state.
--   Rack        apps/api/src/infrastructure/rack-placement.ts. `plan_rack_placement` is
--               `planRackPlacement` with its errors as values; `apply_changes` is the loop of
--               `placeDevice` (infrastructure.service.ts) that writes a plan to the device table;
--               `find_rack_import_overlaps` is the check of a CSV import.
--   Discovery   apps/api/src/discovery. `parse_network`, `assert_discovery_allowed` and
--               `normalize_discovery_ports` are those of discovery-policy.ts, `hosts_for` is `hostsFor`
--               of discovery-network.ts. `Discovery.Hosts.Probes` puts them together as the worker does:
--               check the CIDR, then probe what is listed for the same text. `Discovery.Comparison` is
--               `compareDiscoveryResults`; the order that `localeCompare` gives is a parameter.
--               `Discovery.Profiles` is discovery-profiles.ts, without the descriptions of the profiles.
--   Operations  apps/api/src/operations/operations.service.ts. The alert table with every write to it:
--               `upsert`, `reconcile_source`, `reopen_expired_snoozes`, `acknowledge`, `snooze` and
--               `resolve`, each one a step of a relation on tables. What the writes of a user ask of
--               the access checks is the interface `AlertAccess`, of which nothing is assumed.
--               `apply_alert_policies` is `applyAlertPolicies`, the filter of the lists.
--   Snmp        apps/snmp/src and packages/snmp-core/src. `Snmp.Keyring` is the envelope encryption of
--               crypto.ts. `Snmp.Credentials` opens what is stored (client.ts) and fills a receiver's
--               authorizer (`reloadCredentials`). `Snmp.Listeners` chooses the addresses to listen on,
--               `Snmp.Listeners.Sockets` opens and closes the sockets (`performRefresh`, `bind`).
--               `Snmp.Limits` is the rate limit `allowed`. `Snmp.Traps` follows a notification through
--               `persist`: whose it is (`Association`), what is stored (`Events`), and `process`,
--               `recoverPending` and `cleanupExpiredEnrollments` as steps on the same tables, between
--               which the API deletes and accepts enrollments, expired events are deleted (`retentionTimer`
--               of index.ts) and rows that events refer to are removed (`Traps.Steps`).
--               `Snmp.Contracts` is contracts.ts with `setVarbinds` and `publicErrorCode`, `Snmp.Sets` is
--               `SetProcessor.run` of set.ts: what the device and the database answer is a parameter.
--               `Snmp.Polls` is `PollProcessor` of poll.ts (`run`, `scheduled`, `test`), and `Snmp.Polls.Drifts`
--               its `replaceDrifts`: each write may fail, and so may Redis. `Snmp.Locks` is `withLock` of locks.ts, taken apart at its action:
--               `acquire` and `release` are steps between which other workers run. Redis is the
--               interface `Redis`, and `IsRedis` is what it documents of the three commands.
--               `Snmp.Service` is apps/api/src/snmp/snmp.service.ts. Its vault of credentials and
--               enrollments asks before each write that the secret is new; `Accept` turns an enrollment
--               into a device, under the subnet that `Subnets` chooses. `Writes` takes `previewWrite` and
--               `executeWrite` together with the worker that runs their jobs (`Snmp.Sets`) and finds
--               them again after a restart (`recoverPendingJobs` of apps/snmp/src/index.ts), and
--               `Writes.Spec` is what a write request promises. A run is two steps (`start_run` and
--               `end_run`), of which the transactions of the second may fail, and BullMQ may give a job
--               again whose worker has stalled. The `try` of index.ts does not await `set.run`, so that a
--               busy device leaves job and request as they are.
--               `Onboard` is `onboardDevice`, `Rotation` is `rotateCredentials` and `Schedule` is
--               `upsertConfig` with the schedulers of the queue. `Exclusive` runs the calls on the vault
--               one after another; the code locks them against each other, except for the rotation.
--               `Jobs` is `poll` and `testCredential`, beside the scheduled polls, where other calls come
--               between the count of `poll` and its job, and `Drifts` is `reviewDrift`. `overview`,
--               `metrics` and the lists only read.
--   Settings    apps/api/src/settings/role-request.service.ts. `submit`, and `claim` and `finalize`, the
--               two halves of `decide`, between which other calls run: a step relation on the table of
--               requests, the decisions that have not ended and the roles that were granted.
--               `Settings.AccessGroups` is access-group.service.ts with the writes of rules of
--               infrastructure/infrastructure-access.service.ts, as steps on one set of tables; where
--               sites, buildings and rooms are is fixed, and a call runs without others in between.
--   Base, Collections, Text, Bits
--               the shared part: results with errors as values, integers, sorting, JavaScript's sets,
--               texts as lists of UTF-16 code units with `split`, `trim` and `Number`, and the laws of
--               the operations on binary digits.
--
-- Numbers: rack units are integers (the database's `Int` columns); addresses and ports are natural
-- numbers, and the 32-bit operations of `hostsFor` keep their wrap-around. A `bigint` is a natural
-- number without bound. `Number(text)` is defined on digits and white space; all its other forms are a
-- parameter, as is Node's `net.isIP`, and nothing is assumed of either. All loops are structural
-- recursion on lists, so no fuel is used.
--
-- Not modelled: the HTTP layer, validation decorators and audit records of the controllers, the
-- database itself, the queues of BullMQ, Keycloak, the sockets and sessions of net-snmp, ONTAP, and the
-- React interface (apps/web). `ipv6Value` accepts some texts that are no IPv6 address; `net.isIP` is asked before.
pub mod Base
pub mod Collections
pub mod Text
pub mod Bits
pub mod Rack
pub mod Access
pub mod Ipam
pub mod Discovery
pub mod Infrastructure
pub mod Operations
pub mod Snmp
pub mod Settings
