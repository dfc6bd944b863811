-- ===== src/Lib.antt =====
-- A model of libcod2's waypoint graphs and of its leaky-bucket rate limiter, with the theorems that
-- make them correct.
--
-- The program is a library that extends the CoD2 server: scripts call its functions, which read their
-- parameters from the script stack. The part modelled first keeps a vector of waypoint graphs that
-- scripts create, fill with nodes and edges, change, and search. A second part limits the rate of the
-- requests that the server answers. Helpers of the whole library stand beside them.
--
-- The files and what they are about:
--   Prelude, Prelude/*   shared names: Boolean tests on the native numbers, lists with the bounds of
--                        a vector (get_or, set, erase_at), All, and C's int (Prelude/Int).
--   Float                the operations of C's float, which are a parameter of everything, and the laws
--                        of IEEE 754 that the proofs use, NaN and infinities included (FloatLaws). Laws
--                        are a premise only of the theorems on the heap, on the searches, and on the
--                        closest node and edge.
--   Script               the stackGet functions of code/gsc.cpp, on the list of parameters.
--   Heap, Heap/*         GraphHeapEntry, heapSiftUp, heapSiftDown, heapPush and heapPop of
--                        code/gsc_graph.cpp; Up and Down show what each sift restores, Queue the push
--                        and the pop.
--   Graph                the structs and the lookups of code/gsc_graph.cpp. `Graphs` is the static
--                        vector of graphs; a gsc_graph_* function takes and returns it, with a Reply.
--   Graph/Reply          the early returns: stackError with what is pushed, or an answer.
--   Graph/Wellformed, Graph/World, Graph/Shape, Graph/Lookup
--                        the invariant of a graph and of the vector, and what the lookups find.
--   Graph/Edges, Graph/Nodes, Graph/Registry
--                        the calls on edges, on nodes, and on the vector of graphs; Keeps and Calls
--                        show that each keeps the invariant, Burial what removing a node does,
--                        Setters what is read back, Ids and Effects which ids are given and found.
--   Graph/Precompute     graphPrecomputePathsToNode: Arcs and Network are about the reverse
--                        adjacency, Route, Relax, Rounds, Ends and Shortest about the search over it,
--                        Ways about what that says of the graph, Cache about the stored trees.
--   Graph/Reach          graphGetNodeIdsAccessibleFrom and graphGetNodeIdsAccessibleTo: Rounds is about
--                        the walk, Accessible and Sources about the two functions.
--   Graph/Scratch        scratchBegin and graphMarkSkippedNodes; Begin is about the start of a search,
--                        Marks about the nodes that it is to skip.
--   Graph/Search         the search of graphFindPath and graphPushPath. Start is about the state before
--                        the loop, Chain says what holds of the parents, Keeps and Rounds that every
--                        step keeps it and that the loop ends, Paths what that says of the path; Full and
--                        Complete are about what a search without a budget finds.
--   Graph/FindPath       graphFindPath around its search: the parameters, the answer from a cached tree,
--                        graphRecordSearch; Calls shows that the function keeps the invariant, Answers is
--                        about what the search answers. The answer from a cached tree is modelled, and
--                        of it only that it keeps the invariant is shown.
--   Graph/File           graphCrc32, graphSave and graphLoad on lists of bytes, with the engine's files,
--                        malloc and the bits of a float as parameters (FileSystem, FloatBits); Bytes,
--                        Loops and RoundTrip read back what was written, Stored is about a load after
--                        a save. Keeps shows that a load keeps the invariant. Contents, Buffer and
--                        Outcome are about what a load makes of any file, right or wrong: the records
--                        of the edges, the buffer, and the call as a whole.
--   Graph/Listing        graphGetAllNodes, graphGetAllEdges and graphFindClosestEdge.
--   Graph/Closest        graphFindClosestNode, with the engine's trace as a parameter.
--   Graph/Session        any sequence of the calls.
--   RateLimiter          SVC_HashForAddress and SVC_RateLimit of code/ratelimiter.cpp, with the clock
--                        as an argument; Bounds is about how many requests pass.
--   Utils                IsLocalIPAddress (Networks) and the indices of the protocols (Protocols) of
--                        code/utils.cpp.
--   Tests/*              a float type of natural numbers, a small graph, a heap and a bucket, to which
--                        the theorems are applied.
--
-- State is passed explicitly. An index stands for a pointer into a vector. The unsigned counters wrap
-- at 2 ^ 32, the clock at 2 ^ 64, an interval at 2 ^ 31 and a bucket's count at 2 ^ 7, as in C.
--
-- Loops that are not structural run on fuel: a sift takes at most as many rounds as its index, or as
-- the heap has entries; the search for a free id one round for each graph; the Dijkstra loop one round
-- for each entry that is ever pushed, one for the goal and at most one for each edge; a breadth-first
-- walk one round for each node; the search for a path one round for each edge and one for the start.
-- That these are enough is part of what is shown of each. A file is a list of bytes, numbers with the
-- low byte first as on the x86 that the library is built for.
--
-- Not modelled: the messages that stackError hands to a script callback, debug prints, and the
-- reservation of memory. Running out of memory is modelled where the source tests for it. Automatic
-- discovery and the table of buckets are left for later. The rest of the library patches the game binary, reads and writes engine memory, or calls other libraries.
pub mod Prelude
pub mod Float
pub mod Heap
pub mod Script
pub mod Graph
pub mod RateLimiter
pub mod Utils
pub mod Tests
