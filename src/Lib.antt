-- ===== src/Lib.antt =====
-- Two database assignments, byte by byte: the record store a1 and the external sorts a2.
--
-- a1 is a heap file of fixed-length records. Record.antt (a1/record.cpp) serialises a record into
-- fields of ten bytes; Page.antt (a1/page.cpp) keeps records in the slots of a page with a bitmap
-- at its end; Directory.antt (a1/directory.cpp) keeps the entries of the pages of a file; and
-- Heapfile.antt (a1/heapfile.cpp) ties them together with a cache of one page. The functions have
-- the names that they have in the source. CString.antt holds the C string functions that they
-- call, and Base.antt the names, list lemmas, byte operations and 32-bit integers that
-- the parts share.
--
-- Directory/Laws.antt is about the entries of a directory. Heapfile/Cache.antt, Heapfile/Store.antt,
-- Heapfile/Adding.antt, Heapfile/Missing.antt and their kin are about the cache and the records,
-- Heapfile/EntryAt.antt, Heapfile/EntryFits.antt, Heapfile/Appending.antt, Heapfile/Linked.antt and
-- Heapfile/Linking.antt about new entries, Heapfile/Ends.antt, Heapfile/Extending.antt,
-- Heapfile/Laid.antt, Heapfile/Allocating.antt and Heapfile/Growing.antt about new pages,
-- Heapfile/FreeSpace.antt, Heapfile/LaidStored.antt, Heapfile/Accounted.antt and
-- Heapfile/Vacant.antt about the free space of the entries, Heapfile/Contents.antt,
-- Heapfile/Added.antt, Heapfile/Putting.antt and Heapfile/Inserted.antt about the heap file as a
-- map, Heapfile/Visits.antt,
-- Heapfile/Moves.antt, Heapfile/Places.antt and Heapfile/Enumeration.antt about the iterator, and
-- Heapfile/Closing.antt, Heapfile/Opening.antt, Heapfile/Reopen.antt, Heapfile/Creating.antt,
-- Heapfile/Chained.antt, Heapfile/Chains.antt and Heapfile/Stored.antt about the file between two
-- runs.
--
-- Tools.antt models the programs of a1 that use them: Tools/Edit.antt (csv2heapfile.cpp,
-- insert.cpp, delete.cpp, update.cpp), Tools/Query.antt (scan.cpp, select.cpp, select2.cpp,
-- select3.cpp), Tools/ColumnStore.antt (csv2colstore.cpp) and Tools/PageFile.antt
-- (write_fixed_len_pages.cpp, read_fixed_len_pages.cpp). Tools/Update.antt is about update.cpp;
-- Tools/Loading.antt, Tools/Sessions.antt, Tools/Csv2Heapfile.antt, Tools/Insert.antt and
-- Tools/Delete.antt are about csv2heapfile.cpp, insert.cpp and delete.cpp from the arguments to the
-- file that they leave.
--
-- a2 sorts files of records. Sorting.antt (a2/library.h, a2/library.cc) has the schema and the
-- comparators, Sorting/Runs.antt (the same) the sorted runs and their iterator, Sorting/Merge.antt
-- (a2/msort.cc) the merge sort, and Sorting/Tree.antt (a2/bsort.cc) the sort by an ordered store.
-- The merge of any iterators is in Sorting/Order.antt (what it asks of them), Sorting/Minimum.antt,
-- Sorting/Slots.antt and Sorting/Sorted.antt; the files as lists of records are in
-- Sorting/Records.antt and Sorting/RunLists.antt; the run iterator in Sorting/Delivery.antt and
-- Sorting/Writing.antt; mk_runs in Sorting/Initial.antt; the merge of a group of runs, a pass, the
-- passes and the whole sort in Sorting/Kway.antt, Sorting/Group.antt, Sorting/Pass.antt,
-- Sorting/Passes.antt, Sorting/File.antt and Sorting/Program.antt; and the comparators in
-- Sorting/Signs.antt, Sorting/Values.antt, Sorting/Comparator.antt, Sorting/Integers.antt,
-- Sorting/SortAttrs.antt, Sorting/AttrNames.antt and Sorting/KeyOrder.antt. qsort, the conversion to
-- float, the LevelDB store and what the dangling pointers of its comparator point to are arguments;
-- the schema file is taken as jsoncpp has parsed it.
--
-- State. A page is its bytes and its two sizes, a directory its bytes, capacity and offset, and a
-- heap file the bytes of its file, the buffered directories and the cache. An operation takes the
-- state and returns it in `Run`, whose other outcomes are a failed assertion, an access out of
-- bounds, `exit(1)`, a seek to a negative offset, a number too large for an `int`, a division by
-- zero and a loop that does not end. The page that `get_page` points to is the field `cached_page`,
-- so a change through the pointer is a change of that field. The slot and page number -1 and the
-- null page are `none`.
--
-- Numbers. `int` arguments and sizes are natural numbers without a bound in a1: the source does not
-- check them, and the signed overflow that would end it is undefined. The integers that stand in
-- a directory page are 32-bit patterns, with the sign test written out. A file offset from `ftell`
-- is cut to 32 bits. `ceil(n / 8.0)` is exact on `int`, and is `(n + 7) / 8`. In a2 the number of
-- records is a 32-bit pattern, and each `int` that the merge passes compute is checked by `in_int`:
-- a number that is too large stops the model, where the source overflows or cuts it off. The bytes
-- of a buffer that nothing has set are not there to be read, and `atoi`, `atof` and `strcmp` are to
-- find a terminator among those that are.
--
-- Fuel. `open_heapfile` follows the chain of directories for as many rounds as the file has
-- blocks, and one more; the iterator makes one round for each page that the directories have room
-- for, and one more; a loop over its records makes as many rounds as the pages have bytes. The
-- merge has a round for each record that its iterators have left, and writing out a run one for
-- each that the run has left; making runs and reading a page file take a byte of the file at least
-- in each round; the groups of a pass are no more than the records, and the passes no more than the
-- bound that `n` is to reach. A number is printed with ten digits at most. All other loops are
-- structural.
--
-- Not modelled: freeing memory, messages that are printed, writes that the disk refuses, the time
-- stamps, how msort reads its arguments and finds the name of the sorted file to copy it.
-- LevelDB and jsoncpp under a2 are other projects' libraries.
pub mod Base
pub mod CString
pub mod Record
pub mod Page
pub mod Directory
pub mod Heapfile
pub mod Tools
pub mod Sorting
