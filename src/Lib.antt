-- ===== src/Lib.antt =====
-- The parts of WABT and of its sandboxing runtime that decide what a WebAssembly module may do:
-- the type checker of the validator, the binary reader with its decoders, the interpreter, and
-- the runtime and host library that a module translated by wasm2c is linked with.
--
-- The parts and how they interact. The validator and the interpreter's reader call the type
-- checker once an instruction. The binary reader takes a file apart and calls a delegate, of
-- which the interpreter's reader is one; it decodes integers with the LEB128 functions and names
-- with the UTF-8 check, and the text front end reads numbers with the integer parsers. The
-- interpreter's reader emits an instruction stream, which the interpreter decodes and executes.
-- A module that wasm2c has translated reaches memory and callbacks through the runtime, and the
-- host reaches the module through the class WasmSandbox, which registers types and functions in
-- the runtime's tables and converts pointers between the two address spaces.
--
-- Which file models which part:
--   TypeChecker      src/type-checker.{cc,h}: State is the class's fields and primitives
--                    (push_label for PushLabel, and so on), Check the checks of signatures, Ops
--                    the operations that open, close or leave a label, Simple the others, Calls
--                    a sequence of calls. A method is a function from the state to its result
--                    and the state after. The head of a list is the back of the vector. Frame,
--                    Bounded, Pops and Blocks hold the proofs.
--   Leb128           src/leb128.cc: a byte sequence is a list, a signed integer its bit pattern.
--                    A writer's loop has as fuel the room in its array, 5 or 10 bytes, seven
--                    bits a byte.
--   Utf8             src/utf8.cc: the loop has the length of the text as fuel, which is enough
--                    since each round consumes a byte.
--   Literal          src/literal.cc: the parsers of integers.
--   Runtime          wasm2c/wasm-rt-impl.cpp, wasm2c/wasm-rt.h: Memory holds the bounds-checked
--                    accesses, the marks and sbrk, Layout the regions of linear memory,
--                    FuncTypes and FuncTable the two tables. Traps and aborts are outcomes; an
--                    assertion that fails is an abort, since the runtime's build keeps
--                    assertions.
--   Sandbox          wasm2c/wasm_sandbox.cpp, wasm2c/wasm_sandbox.h: pointers and callbacks. What
--                    the module's own malloc and free do is a parameter.
--   CircularArray    src/circular-array.h: the token queue of the parser; the capacity is 2 ^ k.
--                    The loop of clear has the size as fuel, which each round lowers by one.
--   Interp           src/interp.{cc,h}: State is Thread and Environment with the two stacks, Ints,
--                    Floats and Compare the arithmetic on bit patterns, Memory the accesses,
--                    Operators and Lanewise how operands are taken, Control the branches and
--                    locals, Calls the calls, and Ops, a module for each family, the cases of the
--                    switch in Thread::Run, which is run_opcode of Run. Opcode and Decode are the
--                    table of src/opcode.def and FromCode. Emit and Reader are what
--                    src/binary-reader-interp.cc writes for a function body, with the labels and
--                    the places to mend; the sections of a module are left out there.
--                    Executor the calls from outside. The loop of RunDefinedFunction has a fuel,
--                    a unit for each call of Thread::Run; a run of k instructions needs k of
--                    fuel at most. The compiler's floating point, the bit counts and the host
--                    functions are the parameter Host.
--   BinaryReader     src/binary-reader.{cc,h}: State is the class's fields with the calls that the
--                    delegate has had, Read the primitives, Kinds which callback an instruction
--                    has and Opcode::IsEnabled, Init the initializer expressions, Body the bodies
--                    of functions, Names with Linking and Subsections the custom sections,
--                    Sections with Imports the known ones, Module ReadSections and ReadModule.
--                    What the delegate answers is a function of the calls so far. The loops have
--                    as fuel one more than the bytes of the file, and each round consumes a byte.
--                    The sum of an offset and a uint32_t does not wrap round in a size_t. Within
--                    and Errors hold the proofs about whole files.
--   Base             what the modules share: tests, lists and bit masks over the native numbers.
--
-- Machine integers are numbers with their wrap-around written out. What is not modelled: the
-- text of messages, the assertions of WABT, which a release build drops, streams, the module's
-- locks and jumps, and the wiring of symbols; the mutexes of the runtime are held for whole
-- calls, so that calls follow one another; allocations of the host succeed. Of the interpreter
-- the tracing, the disassembly, the printing of values and the lookup of modules and exports by
-- name are left out. Of the binary reader the logging delegate is left out. The validator, the
-- reader of the IR, the binary writer and the text front end are not modelled.
pub mod Base
pub mod TypeChecker
pub mod Leb128
pub mod Runtime
pub mod Sandbox
pub mod Utf8
pub mod Literal
pub mod CircularArray
pub mod BinaryReader
pub mod Interp
