-- ===== src/Lib.antt =====
-- A model of the C extension of curb, the Ruby binding of libcurl, and what it guarantees.
--
-- A Curl::Easy (ext/curb_easy.c) is one transfer with its settings, a Curl::Multi (ext/curb_multi.c) runs
-- several. Before a transfer the easy writes its settings to libcurl's handle; during it libcurl calls back
-- for the body, the headers, the upload, the progress and, under the network policy, for each socket and
-- each request; after it the multi takes the easy off, runs its status procs and defers exceptions.
--
-- Base holds the shared helpers: Boolean tests and lists over the native numbers, byte strings, integers.
-- Ruby is what the C code uses of Ruby: exceptions, results and values.
-- Network is the network policy of ext/curb_easy.c. Network.Prefix is curb_ip_prefix_matches, Network.Ipv4
-- and Network.Ipv6 the tests for unsafe addresses, Network.Cidr curb_parse_cidr_rule with strtol,
-- Network.Host curb_normalize_host_value, Network.Rules the two allowlists with their setters, and
-- Network.Gate the callbacks curb_public_network_opensocket and curb_host_allowlist_prereq:
-- Network.Gate.Permitted and Network.Gate.Verdict are on the first, Network.Gate.Refused and
-- Network.Gate.Passing on the second.
-- Easy is the struct ruby_curl_easy of ext/curb_easy.h with ruby_curl_easy_zero. Easy.Callbacks is how
-- Ruby code runs inside a callback, Easy.Body the write callbacks and max_body_bytes, Easy.Stream the
-- read and seek callbacks with Curl::Upload (ext/curb_upload.c), Easy.Lifecycle cleanup, clone and
-- reset, Easy.Attributes the numeric attributes with the macros of ext/curb_macros.h, and
-- http_auth_types in Easy.Attributes.Auth, Easy.Symbols resolve_mode and network_policy, and
-- Easy.Accessors the flags, handlers, texts and lists that are kept as they are given.
-- Setup is ruby_curl_easy_setup_body in three stages: the options that the policy, authentication, the
-- proxy and the data callbacks decide are in Setup itself, the plain options in Setup.General, with what
-- a sequence of setups leaves in Setup.History, and the lists of headers and the like, with the
-- functions that clear them, in Setup.Lists; Setup.Whole is ruby_curl_easy_setup, the three together.
-- Setopt is ruby_curl_easy_set_opt: the options and the state, Setopt.Values the conversions, Setopt.Apply
-- the switch, and Setopt.Policy and Setopt.Guarded what it cannot change.
-- PostField is ext/curb_postfield.c: the fields of a form with their constructors and append_to_form,
-- described anew in PostField.Part, and PostField.Text is to_str.
-- Request is what http, http_post, http_patch and http_put of ext/curb_easy.c do to the options of the
-- handle around the transfer: Request itself has the verb and post_body=, Request.PutData put_data=, with
-- what it leaves when it raises in Request.PutData.Raised, Request.Perform the three methods, and
-- Request.Restored what they leave.
-- Multi is ruby_curl_multi of ext/curb_multi.h. Multi.Attach is add, remove, detach and close, with
-- easy.multi= and the free of an easy from ext/curb_easy.c, Multi.EasyClose easy.close, Multi.EasyNew
-- Curl::Easy.new, Multi.Complete a finished transfer and its procs, Multi.Deferred the exception that
-- waits, Multi.Perform the guard around every perform, Multi.Loop the loop ruby_curl_multi_perform_impl
-- with the reading of messages, and Multi.Sockets the callbacks and masks of the socket-action loop;
-- its children are the loop, from the inside out: Wait the times and sets, Drive what is called, Pass
-- and Turn one pass of rb_curl_multi_socket_drive, Perform the loop and
-- ruby_curl_multi_socket_perform_impl. Multi.Dispatch chooses the loop, and Multi.Run and the modules
-- called Ends say how loops end. Multi.Linked has, operation by operation, that tables and easies point
-- to each other, and Multi.Reach the step relation of all operations; the modules called Keeps have
-- what each loop keeps if its calls keep it, which Multi.Linked.Perform uses for a whole perform. An
-- operation of Multi and the loop work on the same world.
-- Errors is the table of exception classes of ext/curb_errors.c.
-- Examples runs the theorems on concrete states.
--
-- Strings are lists of bytes, numbers the native ones; where a C integer could wrap (the size of a long
-- that a proc gives, an upload offset, the byte of a prefix length) the wrap is written out, and
-- elsewhere the values that libcurl passes are taken to fit. Objects are numbers; the map of options is
-- a record, and the easies and multis of Multi are two functions from numbers, so that a call can
-- change any of them. Ruby code that a callback runs is an argument that may change the easy or the
-- whole world and may raise; what a stream's methods do to the upload object itself is not followed.
-- Exceptions that rb_rescue does not catch are left out. A function that raises gives the state at that
-- moment beside the exception. inet_pton, inet_ntop, socket, the sizes of structures and libcurl are
-- arguments. Of libcurl's part in Multi, a state with its calls, two things are assumed where a theorem
-- says so: that a handle is let go only by the multi that has it, and that the transfers of a perform
-- need finitely many calls and waits; and of Ruby code and the scheduler, that they attach and detach
-- by the operations of Multi; of the autoclose that lib/curl/multi.rb defines, that it leaves nothing
-- running if it does not raise. Methods of the data of a PUT may raise, but what they change of the easy
-- is not followed. The loops of perform take fuel, one number for all of them; two more than
-- the calls and waits still to come is shown to be enough. The socket-action loop is taken as built
-- with the io_select hook and rb_wait_for_single_fd; what other fibers do meanwhile is part of each
-- wait. All other loops follow their lists and need none.
--
-- Not modelled: the timeout in fractions of a second, autoreferer=, the getinfo methods, the debug
-- callback, changes that appending makes to a field used twice in one form, garbage collection, failed
-- allocations other than of list items, the constants of ext/curb.c and the Ruby files of lib.
pub mod Base
pub mod Ruby
pub mod Network
pub mod Easy
pub mod Setup
pub mod Setopt
pub mod PostField
pub mod Request
pub mod Multi
pub mod Errors
pub mod Examples
