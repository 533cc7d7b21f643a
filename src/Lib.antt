-- ===== src/Lib.antt =====
-- Verification library of libsession-util: the configuration messages that a user's devices share.
--
-- A device keeps each of its configs as a dict of dicts, sets and scalars (include/session/config.hpp).
-- A change makes the config dirty; `push` serialises it, encrypts it and hands it to the caller, who
-- stores it on a server; `merge` takes what the server has, decrypts it and merges it with the own
-- config. Each message carries the difference to the message before it and the differences of some
-- earlier messages ("lagged diffs"), so that changes made at the same time can be merged by replay.
--
-- Which file models which part of the program:
--   Prelude, Order, Keys      lists over native numbers, integers, results with the exception types;
--                             strict orders and the orders of bytes, integers and pairs
--   Containers                std::set and std::map as sorted lists
--   Config/Data               scalar, set, dict and dict_value of include/session/config.hpp
--   Config/Bt                 oxenc's bt_value, bt_list and bt_dict as src/config.cpp uses them
--   Config/Prune              prune_
--   Config/Diff, Config/Apply diff_impl and apply_diff
--   Config/Wire               load_diff, parse_data, serialize_data
--   Config/Message            ConfigMessage and MutableConfigMessage: Lagged (parse_lagged_diffs), Read
--                             (the parsing constructor), Write (serialize, diff, hash), Mutable
--                             (increment_impl and the constructors), Merge (the merging constructors),
--                             RoundTrip (what is written is read back)
--   Config/Encrypt            src/config/encrypt.cpp and padded_size of include/session/config/encrypt.hpp
--   Config/Base               ConfigBase of src/config/base.cpp: State (set_state, dirty,
--                             confirm_pushed), Multipart (_handle_multipart), Keyring (add_key and its
--                             like), Incoming (merge, _merge), Push (push; Push/Dump and Push/Load
--                             for dump and init, Push/Restart for both together), Field
--                             (DictFieldProxy and the setters of src/config/internal.cpp; Field/View and
--                             Field/Refine for what they do to the leaves of the data, Field/Rows and
--                             Field/Read for several fields of one dict)
--   Config/Signing            ConfigSig of src/config/base.cpp
--   Config/Lifecycle          the calls of ConfigBase as a step relation
--   BtMerge                   src/bt_merge.cpp and include/session/bt_merge.hpp
--   Util                      Text (utf8_truncate and to_epoch_seconds of include/session/util.hpp,
--                             make_lc) and Url (parse_url of src/util.cpp), Split (split of src/util.cpp)
--   MultiEncrypt              src/multi_encrypt.cpp and include/session/multi_encrypt.hpp
--   User                      the configs on top of ConfigBase: Ids (session ids and encoded keys, of
--                             src/config/internal.cpp), Types (what the configs share), Community
--                             (src/config/community.cpp), Contacts (src/config/contacts.cpp), Profile
--                             (src/config/user_profile.cpp), Local (src/config/local.cpp) and Convos
--                             (src/config/convo_info_volatile.cpp)
--   Groups                    Keys: the encryption keys of a closed group (src/config/groups/keys.cpp), with
--                             Keys/Loads for what an accepted key message does to the keys and the
--                             two configs of the group, Keys/Dump for the dump, Keys/Rekey for rekey
--                             and key_supplement, Keys/Parse for load_key_message, Keys/Crypt for
--                             what these are made with, Keys/Message for encrypt_message and
--                             decrypt_message, Keys/Subaccount for the subaccounts, and
--                             Keys/Starts for the constructor and load_admin_key
--   Tests                     concrete runs
--
-- How they correspond: a class is a record with the members of the class, a member function is a
-- function from the record to the record with its result, and an exception is an error of
-- Prelude/Result; an object that an exception leaves half changed is given up, except in
-- _handle_multipart, which catches its own exceptions. Bytes are lists of numbers. A dict is kept in
-- the order of std::map; its lookups, assignments and erasures are those of Containers.
--
-- Loops are structural recursions on what they consume. Fuel is used for the splitting of a large
-- message into chunks and of junk data into entries, where each round takes at least one byte, so that
-- the length is enough, and for the adding of junk entries up to a multiple of a number, which is the
-- fuel. `endless_loop` marks where load_diff makes no progress.
--
-- A config class is functions on the ConfigBase that it extends: a getter reads the data through a
-- path of keys, a setter writes it. Times are numbers of the unit that the source uses, and the time
-- of day is an argument. An iteration is the list of what it passes.
--
-- Parameters: the text encoding of oxenc (Codec) and its hex and base64 forms (Oxenc), libsodium
-- (Sodium, Ed25519, Curve, Crypto and Scalars, with the points that src/xed25519.cpp computes), zstd
-- and the protobuf wrapping (Env), and the signing and verifying functions. What the code relies on of
-- them is a hypothesis of the theorem that needs it.
--
-- Not modelled: assertions and logging; overflow of the 64-bit sequence numbers, except that of their
-- sum with the number of lags in a merge, which wraps around; the reserve of memory; the config classes
-- of groups (src/config/user_groups.cpp, info.cpp and members.cpp of src/config/groups/), the network
-- client, onion requests, message encryption between users, the C interface and the generated code.
pub mod Prelude
pub mod Order
pub mod Keys
pub mod Containers
pub mod Config
pub mod BtMerge
pub mod Util
pub mod MultiEncrypt
pub mod User
pub mod Groups
mod Tests
