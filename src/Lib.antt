-- ===== src/Lib.antt =====
-- Verification of the Vulkan SC loader: a model of the parts of the loader that decide which layers
-- and extensions are used, and of the data structures that they work on.
--
-- The loader reads environment variables, a settings file and manifest files, builds lists of layers
-- and extensions from them, and links the chosen layers into the chain of calls of an instance. The
-- part that decides is plain C over strings, lists and flags; that part is modelled here. Each file
-- opens with the C file that it is about.
--
-- - Base: what the parts share. Base.Bytes has C strings as lists of codes, `strcmp`, `tolower` and
--   `strtok`; Base.Lists has the list functions over the native numbers; Base.Results has `VkResult`;
--   Base.Memory has the heap, as the answers that the allocator is going to give and the number of
--   blocks in use (loader/allocation.c only passes requests on to it).
-- - Environment (loader/loader_environment.c): Environment.Filter has `determine_filter_type` and the
--   parsing of VK_LOADER_LAYERS_ENABLE, VK_LOADER_LAYERS_DISABLE and VK_LOADER_LAYERS_ALLOW;
--   Environment.Match has `check_name_matches_filter_environment_var`. The others prove: Shapes the
--   kinds of filters, Meaning what a match means as text, Parsing the bounds of the arrays, RoundTrip
--   the way from the text of a variable to the decision, Disable the flags of the disable variable.
--   Environment.Ids has the filters of ids with `strtoul`, and IdRanges the ids that pass.
-- - StringList (loader/loader.c): the `loader_string_list` with its growth and its failures. Append has
--   the contents, Ownership the count of blocks that the list owns.
-- - UsedObjects (loader/loader.c): the `loader_used_object_list`, from which surfaces and debug objects
--   get their index. Entries has the reading of an entry, Requests what a request and a release do,
--   Validity that the list stays in shape.
-- - Extensions (loader/loader.c): the lists of instance and device extensions. Adding has the buffer
--   and the order, Names the view as a set of names, DeviceAdding the ownership of entry points.
-- - Layers (loader/loader.c): the lists of layers. Layers itself has the search, the removal of the
--   layers that the override layer's blacklist names and the removal of duplicates, with Blacklist
--   and Duplicates for what they do; Layers.Filters has the decisions whether a layer is available and
--   an implicit one enabled, which use Environment.Match, with Precedence for the order in which the
--   settings count; Layers.MetaLayers has the removal of what no meta-layer names, with Kept;
--   Layers.Lists has the growing lists of layers and of pointers, with Room and Pointers for their
--   bounds. The size of the struct for a layer is a parameter, and a pointer is a value of any type.
-- - Settings (loader/settings.c): how the layers of the settings file are combined with those that are
--   found, on the lists of Layers.Lists. Names has the names in the lists, Loops the loops of the code
--   against these lists, Location the entry that divides the settings, Picks the layers that are
--   taken, Combined the whole; Equality has the comparison of two settings, and EqualityLaws what it
--   decides.
-- - Activation (loader/loader.c, loader/loader_environment.c, loader/settings.c): from the list of layers
--   that were found to those of an instance, with what Layers.Filters decides. Activation itself has the
--   meta-layers and the implicit layers, Requested the names in the environment and from the
--   application, Enabling `loader_enable_instance_layers`, Validation `loader_validate_layers`, and
--   Verification `verify_meta_layer_component_layers`. Keeps and Requests carry an invariant through
--   all of them once, from what the two ways to add a layer keep (the record `Keeping`); Asked has
--   why a layer is asked for, Sound the invariant of the lists, Correct the whole, Complete what is
--   not forgotten, Results and ListResults the results, Flags the flag of meta-layers, Names the
--   splitting of a variable. Verification.Depth has the end of the verification, with
--   Verification.Unchecked for what it counts, and Verified what it gives the activation.
--   ExtensionChecks has `loader_validate_instance_extensions` and `loader_validate_device_extensions`,
--   with Lookup for the names, and Offers and DeviceOffers for what passes them.
-- - PhysicalDevices (loader/loader.c): the enumeration of the physical devices by the terminator.
--   Freeing has what is freed, Adding and Filling the array while it is filled, Enumeration the whole.
--   Configurations has what the caller gets, Configured the devices that the settings select, TwoCalls
--   the call for the count and the call with an array. A driver is given by its answers.
-- - UnknownFunctions (loader/unknown_function_handling.c): the tables of functions that the loader does
--   not know. Support and PhysicalSupport say what it means that a driver or layer has a function;
--   Table has the index that stands for a name, Dispatch the dispatch tables of the
--   devices that the trampolines jump through; Physical has the same for physical devices, and
--   PhysicalTable what a request gives.
-- - Utf8 (loader/loader.c): `vk_string_validate`, with Text for the strings that it accepts.
-- - Versions (loader/loader.c): versions of the API, with Order for their comparison.
--
-- State is passed along: an operation takes the heap and the list, and returns its result, the heap
-- and the list. A write through a null pointer or beyond a buffer is the outcome `none`, so that a
-- theorem about the other outcomes says that it does not occur. Where the array of the source has
-- more room than entries, the model keeps the entries and the capacity. Sizes wrap at 2 ^ 32 or
-- 2 ^ 64 where the source's types do; the theorems that need it ask for fewer than 2 ^ 31 entries.
-- A loop of the source is a recursion over the list that it walks, or over the number of rounds that
-- are left, which the caller computes from the loop's bounds.
-- The activation of a meta-layer calls itself for its components; its fuel is how deep meta-layers
-- may be components of each other. The number of layers is enough for layers that pass the
-- verification of meta-layers, which itself recurses at most once for each layer. A list of 2 ^ 31
-- entries or more is the outcome `too_many` of the activation, at which the model stops.
--
-- What the code calls and the repository does not hold is a parameter: the allocator's answers, the
-- room on the stack, the environment (a function from names to values) and the sizes and constants of
-- the Vulkan headers, which are written out. Logging is left out, since it changes no result. Not
-- modelled are the reading of files and of JSON, dynamic libraries, the registry, the generated
-- dispatch tables and the trampolines, which pass calls on through pointers of drivers and layers.
pub mod Base
pub mod Environment
pub mod StringList
pub mod UsedObjects
pub mod Extensions
pub mod Layers
pub mod Activation
pub mod PhysicalDevices
pub mod Settings
pub mod UnknownFunctions
pub mod Utf8
pub mod Versions
