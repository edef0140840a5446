-- ===== src/Lib.antt =====
-- Verification of chimp, a small dynamic language whose tasks share nothing, each with its own heap,
-- collector and virtual machine. Everything is written in C under libchimp/.
--
-- The containers. Scripts and the C code itself keep their data in arrays (libchimp/array.c) and in
-- hashes (libchimp/hash.c). The lightweight hash (libchimp/lwhash.c) is the same table outside the
-- object system, for the methods of classes. All three compare items with `chimp_object_cmp`,
-- which is an argument `cmp` of the definitions here, and call a script's functions through
-- `chimp_object_call`, which is an argument `fn`.
--
-- Common holds the shared names, the Boolean tests, the lists over the native numbers and the
-- integers. Its child Runs is what a call in C does: it returns (`done`), it aborts in CHIMP_BUG
-- (`bug`), or it touches memory that it does not own (`fault`). Memory is malloc, realloc, memmove,
-- memcpy and the access to a block; the allocator is a parameter that may refuse. Compare is the
-- result of `chimp_object_cmp`.
--
-- Array is array.c: the functions of libchimp/include/chimp/array.h keep their names without the
-- prefix `chimp_array_`, and Array.Methods has the methods that scripts call. Array.Valid states the
-- invariant of the block and of growing it, Array.Ends, Array.Take and Array.Index are about adding
-- at an end, removing, and access by index; the children of Array.Methods are about the loops. A method
-- that calls a script's function for each item reads the array anew from the state in each round, since
-- the function may change it. Such a loop need not end and takes fuel; where the function leaves the array,
-- one more than its size is enough. Array.Granted is about an allocator that never refuses, and
-- Array.Methods.Live about these loops where the function leaves the array; Array.Methods.Walk and
-- Array.Methods.Loop relate a fixed array's loop to its items.
-- Table is the search that hash.c and lwhash.c each write out, with the association list that they
-- both stand for; Hash is hash.c, LwHash is lwhash.c, and their children Refine relate them to the
-- association list; LwHash.Foreach is about the walk over the entries.
--
-- Code objects are what the compiler writes and the virtual machine runs: libchimp/code.c. Code has the
-- object, its labels and the growth of its block, Code.Instr the instruction words, and Code.Emit the
-- emitters, which keep their names without the prefix `chimp_code_`. The constants and the names are
-- arrays, so Code stands on Array and on its search and push. Code.Decode is about words, Code.Valid
-- about an emitter's word, Code.Consts about the indexed items, and Code.Labels, Code.Jumps and
-- Code.EmitJump about labels that are used after or before the jumps to them.
--
-- Tasks send each other values as messages: libchimp/msg.c packs a value in one block and unpacks it in
-- the receiving task. Msg has the cells, their sizes and the encoder, and Msg.Unpack the decoder. A byte
-- of the block is the first or a further byte of a cell, a character, or what the memory held before.
-- The references that encoding and decoding take to tasks are a list of events. The decoder's fuel is
-- the size of the message, and each level of nesting takes a cell of 24 bytes of it. Msg.Layout says
-- where a value lies, Msg.Store is about later writes, Msg.Encode and Msg.Decode about either direction,
-- Msg.RoundTrip about both, and Msg.Nil about nil in an array.
--
-- Messages wait in the mailbox of a task: libchimp/task.c. Task has its inbox, flags and lock, and the
-- sections in which `chimp_task_send`, `chimp_task_recv` and the end of a thread hold the lock.
-- Task.Steps is the relation of any interleaving of them, with the history of messages, Task.Steps.Delivery
-- its invariant, and Task.Steps.Stuck is about a send to a task that is done. A message is any type there.
--
-- The collector of a task's heap is libchimp/gc.c. Gc has its state and its sweep, Gc.Heap the slabs and
-- the test for an address of a cell, Gc.Mark the marking and a whole collection, and Gc.Alloc a new
-- collector and `chimp_gc_new_object`. A cell's object is its class and the references that the `mark` of
-- that class visits; the words of the machine stack are a list. Marking recurses on fuel, one more than
-- the number of cells, and each call that goes deeper marks one more cell. Gc.Sweep and Gc.Picked are
-- about the two chains that a sweep leaves, Gc.Mark.Visit and Gc.Mark.Reach about what a mark reaches,
-- Gc.Mark.Collect about a collection, and Gc.Alloc.Grow and Gc.Alloc.Fresh about the cell of a new object.
--
-- Each object's class carries out its operations: libchimp/object.c. Object has the slots of a class and
-- the walk up the superclasses, on fuel that is above the length of their chain; Object.Chain relates the
-- walk to the list of these classes, and Object.Dispatch says which class's function is called.
--
-- Strings are blocks of bytes with a terminator: libchimp/str.c. Str has the functions and the methods,
-- with strstr of the C library written out. The loop of a split takes fuel, since it need not end.
-- Str.Append relates an append to lists of bytes, and Str.Split is about an empty separator.
--
-- Before a file is compiled, libchimp/symtable.c gathers the symbols of each of its scopes. Ast has the
-- syntax trees, by the descriptor in script/astgen. Symtable has the entries and the operations that open
-- and close scopes and add symbols, and Symtable.Visit the walk over the tree and the lookups. An entry is
-- a reference into a store. The loop to the parents takes fuel: the number of entries on the stack and
-- two, for the current entry and for nil. Symtable.Stack and Symtable.Opening relate the stack to the list
-- of the scopes around, Symtable.Keeps and Symtable.Walk show that the walk keeps what opening a scope,
-- closing it and adding a symbol keep, Symtable.Base and Symtable.Scopes say what that is, and
-- Symtable.Chain is about the entry that a name is found in.
--
-- The virtual machine runs code objects: libchimp/vm.c. Vm has its state and the interface Callees of what
-- it calls in object.c, task.c and gc.c, and Vm.Act the sequences of calls that change a state. Vm.Heap
-- has the value stack and the objects read and written, Vm.Names the instructions about constants, names
-- and attributes, Vm.Build those that take a number of items, Vm.Frames the frames of libchimp/frame.c,
-- and Vm.Exec the other instructions, the loop of `chimp_vm_eval_frame` and `chimp_vm_invoke`. The loop
-- takes fuel, since a script need not end, and Vm.Fuel shows that more of it changes no result. Vm.Stack
-- relates the value stack to a list, Vm.Operands is about comparisons and arithmetic, Vm.Branches about
-- jumps, Vm.Collections about the items that MAKEARRAY and CALL take, Vm.Variables about local variables,
-- and Vm.Emitted about running what code.c emits.
--
-- Numbers. A `size_t` is a natural number: no block reaches 2^64 bytes. An index passes through
-- `int32_t` in CHIMP_ARRAY_ITEM, which is modelled, so the loops over items are about arrays of at most
-- 2^31 items; a position that the C code passes on as an `int32_t` is one in such an array, and an index
-- argument is an `int32_t` or `int64_t` other than the smallest. The growth by 1.8 in double arithmetic is
-- a quotient of naturals, which agrees below 2^49.
-- Other loops are structural recursion on the number of rounds that the source's bound leaves.
--
-- Not modelled: the parsing of a method's arguments, threads, the destructors of classes, which a sweep calls
-- (`chimp_gc_value_dtor`, with its access to the class of the cell, which stops the program where a cell has
-- no class), input and output, floating point numbers, and what flex and bison generate. A failed allocation of an object by the
-- collector is part of the allocator's refusal. Every other part of the program is outside the library:
-- the compiler, the attributes of classes and the modules among them, and of the strings the constructor,
-- substr and formatting.
pub mod Common
pub mod Compare
pub mod Memory
pub mod Array
pub mod Table
pub mod Hash
pub mod LwHash
pub mod Code
pub mod Object
pub mod Ast
pub mod Symtable
pub mod Str
pub mod Vm
pub mod Msg
pub mod Task
pub mod Gc
pub mod Samples
