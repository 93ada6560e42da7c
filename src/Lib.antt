-- ===== src/Lib.antt =====
-- The join query executor: filters, joins and sums over relations of 64-bit columns, with the radix
-- hash join at its core, worked by a pool of threads.
--
-- The parts, and the files that model them. Paths are from the root of the repository.
--   Structs        src/basicStructs.h: tuples, relations, reordered relations, indexes, result lists.
--   ResultList     src/resultListManip.c: pushResultVer2, cleanListHead, countSizeOfList, and
--                  connectResultList of src/chainFollower.c.
--   Hashing        src/hashing.c, and Hash1_2 of src/functions.c.
--   Histogram      src/functions.c: histogramJob and DoTheHash.
--   Reorder        src/H1.c: reorderRelation and constructionJob; Hash1 and FindNextPower.
--   Index          src/indexManip.c, src/sideFunctions.c, src/indexing.c: the index array.
--   Search         src/chainFollower.c: search and searchThreadVer.
--   Query, Inter   src/queryStructs.h, src/interList.c: predicates and intermediates; Packages has the
--                  variants for rows that are skipped, with findNextRowId of src/jointPerformer.c.
--   Joint          src/jointPerformer.c: workerF, the parts of workerJ within an intermediate,
--                  forgeRelationsheep.
--   Checksum       src/checksum.c.
--   Combinations   src/combinations.c, and the number of combinations of src/joinEnumeration.c.
--   Graph          src/graph.c: the join graph of a query.
--   Warehouse      src/functions.c: what is kept for later joins.
--   Radix          src/radixHashJoin.c: the join of two relations, over the warehouses.
--   Worker         src/jointPerformer.c: performRHJ and workerJ, the join of a predicate.
--   Execution      src/I_O_Receiver.c: the filters, the joins and the sums of a query.
--   BitVector      src/bitVector.c.
--   Stats          src/getStats.c: the statistics of columns, and what filters make of them.
--   JobScheduler   src/jobScheduler.c: the queue of jobs and its protocol.
--   Prelude        arrays as lists, Boolean tests, lists as bags. Tests holds runs and examples.
--
-- A query first filters (Joint), then joins. A join forges a relation for each side, reorders it by
-- the first hash (Histogram, Reorder), indexes one of them (Index) and probes the index with the
-- buckets of the other (Search); the result list (ResultList) updates the intermediates (Inter). Last
-- come the sums (Checksum). The functions keep the source's names, in lower case with underscores.
--
-- Numbers are natural numbers; where a sum may pass 64 bits, or a difference may fall below zero, the
-- wrap is written out. Allocation succeeds and memory is not freed. Arrays are lists: a read outside
-- gives a default and a write outside does nothing. A linked list is a list, from its first node on; a
-- node is named by its place.
--
-- Fuel: the walk of a chain has as many rounds as there are tuples, for a chain visits each position
-- once; the loop over the parts of a bucket as many as tuples are left, for a part is never empty; the
-- loops of recomputeSizes have size / 2 + 1 and 14 rounds, for 2 ^ 14 buckets do not fit the cache; the
-- loops on powers of two have 64, one for each bit.
--
-- Threads: the jobs of a histogram write to slices of their own. The jobs of a search run in any order
-- that has each of them once; the tuples of a reordered relation are placed in any order. In
-- JobScheduler any thread may take the next step, and one that sleeps may wake in any state.
--
-- Not modelled: src/joinEnumeration.c with src/hashTreeManip.c, the optimiser,
-- which estimates in floating point; the parsing of queries, files and pipes; printing and freeing.
pub mod Prelude
pub mod Structs
pub mod ResultList
pub mod Hashing
pub mod Index
pub mod Search
pub mod Inter
pub mod Query
pub mod Joint
pub mod Checksum
pub mod Combinations
pub mod JobScheduler
pub mod Graph
pub mod Histogram
pub mod Reorder
pub mod Warehouse
pub mod Radix
pub mod Worker
pub mod Execution
pub mod BitVector
pub mod Stats
pub mod Tests
