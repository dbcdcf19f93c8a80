-- ===== src/Lib.antt =====
-- learn-go, a repository of Go packages: data structures and algorithms (dsa/), two services
-- (capstones/) and lessons. This library models the packages below as functions over the values
-- that the Go code computes with, and proves what makes them correct.
--
-- Conventions. A Go int that counts or indexes is a natural number; where the source relies on
-- wrap-around or on the sign, as in the slugs, a 64-bit integer is its bit pattern below 2^64, and
-- a limit, a delta or an index that can be negative is an integer of Prelude.Int. A
-- pointer to a tree node is the subtree that it holds. A call that can panic returns an Option
-- (none is the panic) or a result type with a panic. cmp.Ordered is the record Prelude.Ordered of
-- a three-way comparison with its laws, and comparable the record Prelude.Comparable, for keys
-- that equal themselves. A loop that is not structural takes fuel, the number of elements or nodes
-- or the number itself, and the theorems about it show that this is enough: they state the value
-- that the call returns.
--
-- - Prelude: lists, tests and integers over the native numbers, cmp.Ordered, and sorted
--   association lists (Assoc, Map), the abstract maps that the search trees implement. Dict has
--   Go's maps over a comparable key, as association lists, Match the first match in a list, and
--   Mask the bitwise and with a power of two less one.
-- - Shortener: capstones/url-shortener/internal/shortener/shortener.go. Base62 is about Encode and
--   Decode, Canonical about the slugs that Encode gives back, Obfuscate has mulMod,
--   modularInverse, Obfuscate and Deobfuscate, Custom has ValidateCustom. A string is the runes
--   that range yields, each with its width in bytes; strings.ToLower is only called on ASCII
--   there, and is modelled there.
-- - RedBlack: dsa/redblack/redblack.go. Node has the nodes, rotations, balance and the deletion of
--   an end, Descent the recursions that compare keys, Tree the methods of Tree. Contents and
--   Balance are about the pairs in order and the colour rules, Insert and Put about put, Valid
--   about Put and Get of Tree, Height about the height and the check IsValid. The deletions stand
--   on Ready (the nodes that they may go down from), DeleteEnds (deleteMin, deleteMax), Position
--   (where a rotation leaves the key), Delete and DeleteKey (del); Remove and Erase are about
--   DeleteMin, DeleteMax and Delete of Tree.
-- - Bst: dsa/bst/bst.go. Pairs has the pairs in order and the invariant, Change is about Put and
--   Delete, Query about Min, Max, Floor and Ceiling, Walk about All and Range, where the caller's
--   loop is a step on its own state that says whether it goes on, Check about IsValid.
-- - Searching: dsa/searching/searching.go, and dsa/searching/rotated.go. Partition is about the
--   loop of the binary search, Rank about its result as the index that a scan finds, Bounds about
--   the searches on it, Doubling about Exponential, Peak about FindPeak. Order has the order that
--   the tests of rotated.go decide, Halves and Rotated are about the loop of SearchRotated,
--   Rotation and Pivot about SearchRotated and RotationPoint on a rotated slice. Answer has
--   SearchAnswer on ints as bit patterns, where `place` is the order of the ints, and Answer/Least
--   what it returns.
-- - Sorting: dsa/sorting/quadratic.go (InsertionFunc), divide.go (MergeFunc) and sorting.go
--   (IsSorted) there. Order has the comparison and what a stable sort is, Insertion, Merge and
--   MergeSort are about the sorts, Check about IsSorted. The comparison is a record of a function
--   and the laws of a total preorder, which slices.SortFunc asks for. mergeSort returns the slice
--   and the buffer; the zero value that fills a new buffer is an argument.
-- - Queue: dsa/queue/queue.go, with slots, head, tail and count as in the source. Ring has the
--   relation between a buffer and the list that it holds, Growth is about grow and Push, Fifo
--   about sequences of calls and the reads, Removal about removeAt, Matching about RemoveFunc. The
--   zero value of the element type is an argument.
-- - Stack: dsa/stack/stack.go and dsa/stack/balanced.go. Items is about the slice as a stack,
--   Removal about SearchAndRemove, Language has the language of balanced brackets, Brackets is
--   about IsBalanced. A string is its runes, for LongestBalancedPrefix with their widths in bytes.
-- - Hashmap: dsa/hashmap/hashmap.go. Path has the way of a probe through the slots, Probing the
--   loop of probe, Table the relation between slots and the finite map that they hold, Write,
--   Tally and Find what a write does to it and to the counters, Move and Rehash are about resize,
--   Methods, Change and Refine about Get, Put and Delete, Iterate about All and Keys, for a caller
--   that reads to the end, Client about sequences of calls. The hash is an argument, and so are
--   the zero values. The quotient of Load, compared with 0.7, is that of the fractions.
-- - Unionfind: dsa/patterns/unionfind/unionfind.go. Forest has the invariant, with a rank that the
--   code does not store; its fuel, the sum of the sizes, exceeds every rank. Climb is about the
--   two loops of root, Joining and Merge about the end of Union, Roots about the count, Members
--   about the sizes, Calls about Union, Find, Lookup, Connected and SizeOf on one forest, Linking
--   has the chains of edges, Spread what unions do to the elements, Graph is about sequences of
--   unions and HasCycle, Queries about Connected and SizeOf after them, Components about
--   CountComponents.
-- - Intervals: dsa/patterns/intervals/intervals.go. Points has the points that a list covers,
--   Merge is about Merge and Insert, Combine about Intersection and Subtract, Depth about
--   AnyOverlap and TotalCovered, Rooms about the sweep of MinRooms, Members and Selection about
--   MaxNonOverlapping. A coordinate is an int x, held as the number x + 2^63, which keeps the order;
--   slices.SortFunc is an insertion sort, since ByStart and ByEnd tell all intervals apart, and the
--   order of MinRooms all events.
-- - Ratelimit: backends/learning/backend-concepts/ratelimit (ratelimit.go and keyed.go). Sweep is
--   about sweepExpired, Span, Log, Calls and LogCalls about SlidingLog against the history of the
--   calls that it admitted, Aligned, Fixed and FixedCalls about FixedWindow, Positive about the
--   guard on the limit and the window, Response has WriteHeaders, FailOpen and Middleware, with
--   the wait of a refused client in Response/Retry, the requests for other keys meanwhile in
--   Response/Others and the limiter's errors in Response/Failure, Keyed has keyedLimiters. Limits
--   and windows are integers; the clock's reading is an argument of a call, a call is one step.
--
-- Not modelled: printing and error texts, iterators that the caller stops early, the counters'
-- overflow, and the services, servers and lessons of the other directories.
pub mod Prelude
pub mod Bst
pub mod Hashmap
pub mod Intervals
pub mod Queue
pub mod Ratelimit
pub mod RedBlack
pub mod Searching
pub mod Shortener
pub mod Sorting
pub mod Stack
pub mod Unionfind
