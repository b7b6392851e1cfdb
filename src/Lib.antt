-- ===== src/Lib.antt =====
-- Denora is a statistics server for IRC networks: it links to the network as a server, follows
-- users, channels and servers by the messages of the protocol, and keeps counts of them in memory,
-- in files and in an SQL database. This library models parts of its core in C, as functions by
-- clauses, and proves what they compute.
--
-- The parts, and the file that models each:
--   Prelude       the shared tests, lists and characters: tolower and toupper of src/core.c,
--                 stricmp of src/strings.c
--   Wild          do_match_wild, match_wild, match_wild_nocase of src/core.c; the relation that
--                 they decide is Wild/Relation
--   Tokens        myStrGetToken and its kin of src/core.c, against the split of a string in
--                 Tokens/Fields
--   Buffer        split_buf, doCleanBuffer, normalizeBuffer of src/core.c, which take a line of
--                 the protocol apart, clean it and strip its colours
--   Uid           the generators of user ids of src/uid.c
--   Bans          the four lists of masks of a channel, their handlers and SQL queries,
--                 src/ChanBanMode.c
--   Modes         the handlers of modes, the modes of a channel with their values, and the line of
--                 the protocol that changes them, src/ChanMode.c
--   Users         the array of the users by nick, its lookup, the change of a nick, and the
--                 removal of a user, src/users.c
--   Channels      the hash table of the channels, who is on them, and the handlers of JOIN, PART,
--                 KICK and TOPIC, src/channels.c, with denora_cmd_join and denora_cmd_part of
--                 src/ircd.c in Channels/Commands; what the handlers promise is stated with
--                 Channels/Spec and proved in Channels/Promise
--   Servers       the list of the servers of the network, its lookups, the introduction of a
--                 server and the walk, src/servers.c
--   Base64        the numbers in base 64 of the protocols, src/base64.c
--   Cron          the events that the clock runs, src/cron.c: the table, the calls, the schedule
--   Exclude       the users that are left out of the statistics, src/exclude.c
--   SqlQueue      the queue of SQL queries of src/sqlqueue.c, with rdb_query of src/rdb.c
--
-- The main loop calls denora_cron, which looks the events up by name and calls their handlers. A
-- line from the network goes through split_buf to the handlers of messages. Among them, those of
-- modes call chan_set_modes of Modes, which finds a handler in its tables and calls it, the
-- handlers of Bans for a mode with masks; do_join, do_part, do_kick and do_topic of Channels keep
-- the users and the channels linked to each other, and join the own client to the channels of the
-- channel statistics through denora_cmd_join, which calls do_join again, one level deep; those of
-- servers call do_server of Servers, and those of nicks new_user, change_user_nick and delete_user
-- of Users, of which the last takes the user off its channels. The parts that write to the
-- database go through rdb_query.
--
-- A string is the list of its bytes before the terminator, and a pointer into a string or along a
-- linked list is what stands from there on, the null pointer an Option or the empty list. State
-- that the code keeps in static variables is a record that goes in and comes out. An access out of
-- bounds or through a null pointer is a value of its own, none or fault. Where the code keeps
-- pointers to a user, a channel or a server, the entry has an address, a number, and the pointer
-- is it. Numbers are natural numbers; where the code depends on a width or on a sign, the file
-- says so.
--
-- Loops that consume their argument are recursions on it. split_buf has fuel for two rounds more
-- than its buffer has characters, of which each round takes one or more; the loop of
-- normalizeBuffer has one round for each character; int_to_base64 has one for each slot of its
-- buffer; the loop of the queue has one more than there are queries, and the walk over the servers
-- one more than there are servers. The theorems about these give the result, so the fuel is
-- enough.
--
-- Parameters stand for what lies outside: localtime, strtoul, the handlers of the events,
-- findModule, the store of the users, list_find of the list library, and what sends a query to the
-- database.
--
-- The configuration PartOnEmpty lets the own client part from a channel on which it is left alone:
-- chan_deluser calls denora_cmd_part, which calls do_part, which may free the channel that
-- chan_deluser then writes to. The model has these calls and that fault; the theorems on the
-- handlers exclude it by a hypothesis, the field stays of IsConfigured.
--
-- Not modelled: the modes that denora_automode sets, the reading of the configuration and of the
-- language files, sockets, the data files, logging, the loading of modules, the modules of the
-- single protocols and the commands of the services, the modes of users, SJOIN and its kin, the
-- other fields of a user, the split of a server, and threads that interleave within a function.
pub mod Prelude
pub mod Wild
pub mod Tokens
pub mod Buffer
pub mod Uid
pub mod Bans
pub mod Cron
pub mod Users
pub mod Servers
pub mod SqlQueue
pub mod Exclude
pub mod Base64
pub mod Modes
pub mod Channels
