-- ===== src/Lib.antt =====
-- NetMon-Plugins: a verification library for the C++ monitoring plugins of the repository.
--
-- A plugin is a program with the interface of Nagios: it reads options, checks one thing, prints one line and
-- exits with 0 (OK), 1 (WARNING), 2 (CRITICAL) or 3 (UNKNOWN). include/netmon/plugin.hpp declares the class that
-- each plugin derives from, src/common/plugin.cpp runs it (`executePlugin`), and src/common holds what plugins
-- share: the HTTP client, the JSON helpers, the NTP client and the tests for optional libraries. Each
-- plugins/<name>/check_<name>.cpp has one class with the fields for its options, `parseArguments` and `check`,
-- and a `main` that calls both.
--
-- The files
--   Prelude.*    numbers, integers, lists, byte strings and searches, with their laws
--   Cpp.*        what the plugins use of C++: exceptions as values, std::to_string, std::stoi and std::stol
--   Plugin.*     plugin.cpp and plugin.hpp; Plugin.Args is the argument loop and `main`, which all plugins share
--   Dependency   src/common/dependency_check.cpp
--   Threshold    the threshold chain of four plugins
--   FileCount.*  plugins/file_count: Wildcard is `matchesPattern`, Tree `countFiles`, Check the plugin
--   FileAge.*, FileSize.*, Log.*, Negate.*, Dummy    the plugins of these names
--   Icmp.*       `in_cksum` and the echo request of plugins/ping and plugins/fping
--   HttpApi.*    src/common/http_api.cpp: Base64, Request and Response
--   Ntp.*        src/common/ntp_client.cpp: `queryNtpOffset` and `queryTimeProtocolOffset` are `query` at two protocols
--   Clock.*      plugins/ntp, ntp_time, ntp_peer and time, which ask by `query`
--   Redis.*      plugins/redis: Sockets is `connectToRedis`, Protocol the commands, Check the plugin
--   Memcached.*  plugins/memcached
--   SslValidity.*, Http.*    plugins/ssl_validity and plugins/http
--   Net.*        programs that make socket calls, the worlds that answer them, and a logic for all runs of a program;
--                Net.Tcp is the text that the plugins share for a connection, a reply and a command
--   Dialogue.*   plugins/pop, imap, ftp, nntp, ircd, telnet, smtp, ssh, tcp, udp, sip, jabber and zookeeper; Talk has the
--                steps of a conversation, Script the protocols, Conforms what a conversation promises
--   Json.*       src/common/json_utils.cpp
--   Rest.*       plugins/consul, nomad, solr, etcd, vault, influxdb, ceph, grafana, kubernetes and kafka
--   Samples.*    runs and theorems at concrete inputs
-- A plugin's class is a record `Config` of its fields, `parseArguments` a function `parse_argument` from the fields
-- and one argument to what the loop does with it, and `check` a function `check` to a result. Other functions keep
-- their names in snake case.
--
-- What stands outside the sources is an argument: the file system, the clock, std::system, std::regex, the
-- network, what OpenSSL answers, and how a double is printed. Where the order of calls matters, a function returns
-- the calls as a list (Redis.Sockets, Redis.Check, SslValidity.Certificate, Ntp), or is a program of type `Io` (Net),
-- which a `World` answers call by call. The exchange over HTTP of the plugins of Rest is the argument `fetch`.
--
-- Numbers: an `int` or `long` is an integer with its range tested where a value enters or is multiplied; a product
-- or sum outside the range is `undefined`, a conversion wraps around as in C++20. The sums of file_count,
-- log and ping are formed without a limit and tested once at the end, as no partial sum is larger. Counts of places and of
-- objects in a response are unbounded; the source's `int` holds them up to 2^31 - 1. Strings are lists of bytes. The digits of a
-- number are produced with its successor as fuel, which is enough as each round divides by ten; the loop that counts
-- places (Rest) has the length of the text and one as fuel, as each round passes a byte; the loop over `recv` of
-- check_zookeeper has a number of calls as fuel, which is enough where the stream ends by then; every other loop is
-- structural.
--
-- Not modelled: the Windows branches; the texts of `getUsage` (an argument of `run_main`) and `getDescription`;
-- std::bad_alloc; the passing of time. The plugins that the list of files does not name are left out; many of them
-- compute with doubles, whose arithmetic is an argument (`Doubles`, `Offsets`) where it is needed.
pub mod Prelude
pub mod Cpp
pub mod Plugin
pub mod Threshold
pub mod FileCount
pub mod FileAge
pub mod FileSize
pub mod Log
pub mod Negate
pub mod Dummy
pub mod Samples
pub mod Http
pub mod Dependency
pub mod SslValidity
pub mod Icmp
pub mod Memcached
pub mod Json
pub mod Rest
pub mod Net
pub mod Ntp
pub mod Clock
pub mod Dialogue
pub mod HttpApi
pub mod Redis
