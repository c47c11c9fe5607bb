-- ===== src/Lib.antt =====
-- lambpie: the compiler of .pie files.
--
-- A .pie file is Python syntax with a fixed set of statements. `compiler.py` parses `builtins.pie`
-- and the source with `ast`, concatenates the two modules and walks the tree (class Compiler, an
-- ast.NodeVisitor), calling llvmlite as it goes; the result is LLVM IR text with two entry points,
-- lambpie_init and lambpie_handle, and a JSON file with the layout of the input and output
-- classes, both read by the runtime. `scripts/parse_models.py` reads botocore's models of AWS
-- services and writes .pie classes and stubs for them. `scripts/build.py` runs the compiler and
-- the linkers, `scripts/package.py` zips the result, `scripts/deploy.py` deploys it to AWS,
-- `scripts/invoke.py` invokes the function, and `scripts/verify.py` tests it on localstack.
--
-- Files:
--
-- Common.antt, Common/: library names passed on, Boolean tests, lists under native indices,
-- Python's dict as an association list (Common/Dict.antt).
--
-- Ast.antt: the syntax trees of Python's `ast` that compiler.py looks at. An expression or a
-- statement without a visitor is `generic_expr` or `generic_stmt` with its children, since
-- `generic_visit` visits those and returns None. Lists of expressions and statements are data
-- types of their own, defined with them.
--
-- Llvm.antt: llvmlite, which is not part of the repository. A call of it is a value of `ApiCall`;
-- the state keeps the log of all calls, the latest first, and the object that a call returns is
-- named by its number. What llvmlite decides by itself (whether it accepts a call or raises, the
-- type of an object, whether a block is terminated, the parameter types of a function) are the
-- fields of the record `Llvm`, over which everything is parametric.
--
-- Compiler.antt, Compiler/: compiler.py, class Compiler. Compiler/Monad.antt has the fields of the
-- object as the record `State` and Python's exceptions as `Error`; a method is an action `M`, a
-- function from the state to an exception or a result with the next state. Compiler/Types.antt is
-- _get_type and _is_str_type; Compiler/Objects.antt _allocate and the casts; Compiler/Expr.antt
-- the visitors of expressions; Compiler/Class.antt visit_ClassDef with the generated __init__;
-- Compiler/Stmt.antt the visitors of statements and visit_FunctionDef; Compiler/Entry/ has
-- __init__ (Init), visit_Module and main's combination of the two modules (Module),
-- _synthesize_lambda_entry and compile (Json, Lambda), and get_metadata (Metadata).
--
-- Compiler/Hoare.antt: invariants of actions, one rule for each way to build one.
-- Compiler/Discipline/: the arena discipline, by those rules. Every object is allocated by a call
-- whose first argument is the number of an arena, an i32 constant; ARENA_STATIC is 0 and ARENA_REQ
-- is 1. Compiler/Tests/: a concrete `Llvm`, builtins.pie and echo.pie as trees, runs of the whole
-- compiler on them, and the theorems applied to those.
--
-- Compiler/Meaning/: integer expressions. Source.antt defines their value modulo 2 ^ 64 from the
-- tree alone; Machine.antt lists, as the laws of a record, what LLVM documents of the instructions
-- `load`, `add`, `sub`, `mul` and `xor` on i64 and what llvmlite accepts and answers for them;
-- Steps.antt and Correct.antt are the proof. Compiler/Tests/Bench.antt is a machine with those
-- laws.
--
-- Compiler/Layouts/: class layouts, the field indices of the compiler against the struct body
-- given to llvmlite (Fields, Class).
--
-- Models.antt, Models/: scripts/parse_models.py. Shapes.antt is _collect_reachable_shapes over the
-- parsed JSON; Needs.antt defines as an inductive relation, from the model alone, which shapes the
-- selected operations need; Members.antt, Unvisited.antt, Reach.antt and Collect.antt prove that
-- these are what the function collects. Types.antt is _SCALAR_TYPE_MAP and _resolve_pie_type, and
-- Closed.antt what that gives for the members of collected shapes. Python's own limit on the depth
-- of recursion is not modelled.
--
-- Scripts.antt, Scripts/: scripts/deploy.py (Deploy), scripts/verify.py (Verify),
-- scripts/invoke.py (Invoke), scripts/build.py (Build) and scripts/package.py (Package).
-- Calls.antt lists the calls that they make of boto3, the operating system and the clock;
-- Effects.antt is an action that calls a world, which answers and changes as it likes, and that
-- returns, raises or exits. What the theorems rely on of that world is a record: Waiting.antt has
-- IsClock for time.monotonic and time.sleep, Package/Archive.antt IsDisk for the files. Makes.antt
-- (with Polls.antt for the polling loop), Ends.antt and Triples.antt are the rules by which the
-- theorems go along an action: the calls it makes, how it ends, and conditions before and after
-- it. Json.antt is the JSON that the scripts look into. What zipfile writes, JSON texts, UTF-8 and
-- os.path are parameters. A return code of subprocess says whether a signal ended the program
-- (ReturnCode), since it is negative then. Build/Stages.antt has the steps of a build and what
-- each has answered, Verify/Invoking.antt the last two calls of verify.py. Printing and argparse
-- are not modelled; an exit with a message is one with status 1. Cloud.antt is a world with these
-- laws, for the tests.
--
-- Models/Service.antt, Models/Parse.antt, Models/Parse/: what BotocoreModelParser reads and
-- returns, and its methods. Order.antt and Sorting.antt are Python's order of texts and sorted;
-- the exceptions are values of Failure. Skips, Errors, Required and Classes are the theorems, on
-- Entries and Finds, which take a successful parse apart. Models/Generate.antt, Models/Generate/:
-- generate_pie, the order of the fields (Orders), the types that it takes from the model
-- (Emitted), the text of its lines (Text) and the whole file (Whole). The class loop and the loop
-- over the operations order and print the members by separate code, and so do the definitions
-- (required_first and field_line, stub_fields and param). Models/Command.antt, Models/Command/:
-- main and the loading of the model, as an action of Scripts/Effects.antt.
--
-- Bounds and fuel: visitors are structural recursion on the tree, so no method of the compiler
-- runs on fuel. Integers of the compiler itself are unbounded as in Python. The one recursion that
-- is not on a tree is _walk, over shapes that may refer to one another in cycles; its fuel is one
-- more than the number of shapes, since each nested call has entered one more shape. The polling
-- loops of the scripts have fuel for as many rounds as their deadline leaves: each round sleeps
-- for its interval, so 13 rounds for 60 s by 5 s, 62 for 120 s by 2 s or 60 s by 1 s; that this is
-- enough is part of the theorems. The numbers that stand in .pie source are naturals: a negative
-- literal is a unary minus in Python's tree.
--
-- Not modelled: reading files by compiler.py, argument parsing, `ast.parse`, the text that
-- llvmlite prints, printing of the scripts, and the runtime under lambpie's C and Rust sources.
-- Source positions in error messages are left out; the error's class and its kind are kept.
pub mod Common
pub mod Ast
pub mod Llvm
pub mod Compiler
pub mod Models
pub mod Scripts
