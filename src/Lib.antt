-- ===== src/Lib.antt =====
-- LambdaMOO: a server for a programmable, persistent world of objects, with strings in UTF-8.
--
-- The server keeps a table of objects (db_objects.c, db_private.h), runs verbs on them in a virtual
-- machine, and reads commands from its connections. The values of the language are MOO values
-- (structures.h); the routines that compare, search, and rebuild them (utils.c, list.c) and those
-- that read and write characters (utf.c) are what the other parts rest on, and are modelled here
-- with the object table, its properties and verbs, and the reading of commands up to the objects and
-- prepositions that they name. Values and tables are persistent data; a routine that changes a static
-- variable or an object takes the table and returns the new one.
--
-- Which file models which part:
--   Utf            utf.c: get_utf, put_utf, skip_utf, strlen_utf, clearance_utf
--   Utf/Client     utf.c: get_utf_call, with the callback as a queue of bytes
--   Strings        utils.c: cmap, mystrcasecmp, mystrncasecmp, verbcasecmp, str_hash
--   Strings/Search utils.c: strsub, strindex, strrindex
--   Var            structures.h, and is_true and equality of utils.c
--   Binary         utils.c: raw_bytes_to_binary, binary_to_raw_bytes
--   Lists          list.c: doinsert to sublist, ismember, setadd, setremove
--   Lists/Text     list.c: substr, strget, strrangeset, which count characters
--   Lists/Builtins list.c: the builtin functions on lists, by their arguments
--   Lists/Builtins/Search  list.c: strsub(), index(), rindex()
--   Numbers        numbers.c: comparison, arithmetic and power
--   Db             db_objects.c and db_private.h: the table, creation and validity of objects
--   Db/Links       db_objects.c: LL_REMOVE and LL_APPEND, for contents and for children
--   Db/Attributes  db_objects.c: attributes, counts, enumerations, locations, flags, users
--   Db/Lifetime    db_objects.c: db_destroy_object
--   Timers         timers.c: the queue of timers, the virtual timer, the alarms
--   Command        parse_cmd.c: parse_into_words, build_string, parse_into_wordlist
--   Command/Parse  parse_cmd.c: parse_command, with the player's words, objects and preposition
--   Match          match.c: match_object, the names and aliases of objects
--   Verbs          db_verbs.c: handles on verbs and the lookups without the cache
--   Verbs/Access   db_verbs.c: definition, deletion and the attributes of verbs
--   Verbs/Cache    db_verbs.c: db_find_callable_verb with VERB_CACHE, and its invalidation
--   Verbs/Prepositions  db_verbs.c: the table of prepositions and the searches in it
--   Properties     db_properties.c: handles, the search for a slot and for its value
--   Properties/Values  db_properties.c: db_find_property, values, owners and flags
--   Properties/Definitions  db_properties.c: definition, renaming and deletion of properties
--   Properties/Parents  db_properties.c and db_objects.c: db_change_parent
--   Quota          quota.c: decr_quota, incr_quota
-- The files below these hold what is proved about them, and Prelude what they share.
--
-- How they interact: the strings of Var are compared by Strings, lists are searched by the equality of
-- Var, substr and its kin walk by the routines of Utf, and the flags of Db keep the list of users by
-- setadd and setremove of Lists. Db/Links takes the names of the fields that a use of the macros
-- gives, and the laws of these fields, as the record Links.
--
-- Numbers: an int of MOO and an object number are integers, a byte is a number below 0x100, an
-- unsigned int wraps at 2 ^ 32 where the code lets it. A C string is the list of its bytes without
-- the terminator, and reading behind the list gives 0. The comparison of doubles is the machine's,
-- and a parameter (Doubles, Reals); doubles are known by their patterns. Arithmetic on ints is on their
-- residues modulo 2 ^ 64, as the machine's registers do it, though C leaves an overflow undefined.
--
-- A position in a list or a string is an integer that listinsert() and listappend() cut to 32 bits, as the
-- int parameters of list.c do; the routines themselves get it uncut.
--
-- Errors: an Option is none where the server panics or reads outside an array, an Outcome tells
-- panic and fault (a null pointer, an endless loop) apart.
--
-- Fuel: the loops over the lists of objects have one more round than the table has objects; a list of
-- distinct valid objects is no longer than the table, so they end before. The loop of verbcasecmp
-- has a round for each byte of the names, and each round consumes one at least;
-- so it is with the loops of parse_into_words, strsub and strindex and their input. The loop of do_power
-- halves an exponent below 2 ^ 63 in each of 64 rounds.
--
-- Signals: an alarm that is raised is pending in the state of Timers, and its handler runs as an
-- operation of its own, between the others.
--
-- Not modelled: reference counts and allocation (values are persistent; doinsert, whose result does not
-- depend on the count, takes it as an argument), input and output, the network, the compiler, the
-- virtual machine, tasks, handles into entries of the verb cache that were freed (a handle is a value
-- here), the builtin functions on objects, verbs and properties, and the third-party
-- code (expat, pcre, md5, the allocators, the Unicode tables).
pub mod Prelude
pub mod Utf
pub mod Strings
pub mod Var
pub mod Lists
pub mod Db
pub mod Binary
pub mod Numbers
pub mod Timers
pub mod Command
pub mod Verbs
pub mod Properties
pub mod Match
pub mod Quota
