-- ===== src/Lib.antt =====
-- potfit fits interaction potentials for atomistic simulations to reference data (force matching). A
-- run reads a parameter file, a potential file and a configuration file, lays out the vector of all
-- deviations, and lets an optimizer (annealing or differential evolution, then Powell's least
-- squares) change the potential.
--
-- The program is compiled for one interaction and one set of options by preprocessor flags. Build
-- holds these flags as a record, and what the flags change is a function of it, so a theorem is about
-- every binary, but for those that a file's comment leaves out. `double` is an abstract type with an
-- instance of Base/Double; a theorem names the laws of comparisons and of arithmetic that it needs, and
-- nothing else is assumed of rounding. `int` is a natural number where the
-- code keeps it from being negative, otherwise an integer of Base/Int; the conversion from `long` in
-- the reader of parameters and the sums of the pass that counts atoms wrap around at 2^32. `error(1, ...)` ends the program, which is
-- the value `exit` of Base/Ending.
--
-- Files, with the code they model:
--   Params          src/params.c: the chain of keywords as a table (Keywords), the loop over the lines
--                   (Reading), check_parameters_complete and read_parameters (Check); Settings is
--                   g_param, g_files and the other globals that have a keyword, and the C library's
--                   strtok, strtol, strtod and strcasecmp are an argument
--   PotentialHeader src/potential_input.c: read_pot_table up to the end of the header, with
--                   read_pot_line_F, _T, _I, _G and _C
--   PotTable        src/potential_input_f3.c: read_pot_table3, the layout (Layout) and the input loops
--                   (Reading); fscanf is an argument. Distances is read_pot_table4 of
--                   src/potential_input_f4.c, which reads the abscissas too
--   PairIndex       src/potential_input.c, src/config.c: the index of a pair of atom types
--   Cutoffs         src/potential_input.c: calculate_cutoffs
--   Functions       src/functions.c, src/functions.itm: the table of analytic potentials; a function
--                   pointer is a value of any type
--   ForceVector     src/force_common.c: set_force_vector_pointers; src/config.c: the length mdim
--   Evo             src/diff_evo.c: partition and quicksort of the population
--   Bracket         src/bracket.c: the bracketing of a minimum, with its three force vectors and the
--                   pointers that name them; the linked force routine is an argument
--   Brent           src/brent.c: the search inside the bracket, with the same vectors and pointers
--   Linmin          src/linmin.c: the line search, which calls bracket and then brent
--   Powell          src/powell_lsq.c: the matrices as functions (Matrix), gamma and the equations, and a
--                   round of the inner loop, which calls linmin; LAPACK's dsysvx is an argument
--   Anneal          src/simann.c: the annealing, with the moves of analytic and of tabulated parameters
--                   (Moves); random numbers, functions of math.h and the flagfile are arguments
--   Evolution       src/diff_evo.c: the differential evolution around that sort; the runs of its main
--                   loop are a data type, since the loop need not end, and the loops that draw an
--                   individual until it differs from others are an argument, so the runs are those in
--                   which these loops end
--   Optimizer       the free parameters (g_pot.opt_pot) and the arguments that the optimizers share
--   Chempot         src/chempot.c: the sort of the composition nodes and the chemical potentials
--   Splines         src/splines.c: the interpolation routines, with the bisection of splint_ne, the
--                   second derivatives (Second) and splint_ne_lin (Linear)
--   Config          src/config.c: where a distance lies in a table (Slots), the neighbor tables
--                   (Neighbors, with the order of its loops in Ranges and what it means to be a
--                   neighbor in Close), the angles (Angles), the box (Box), the names of the elements
--                   (Names), read_config in binaries for tables (Header, Reader), and the pass that
--                   counts before it (Counts); fgets, fscanf and sscanf are arguments
--   ForcePair       src/force_pair.c: calc_forces in binaries for tables, with update_splines of
--                   src/force_common.c; Setup has what it reads of the globals that read_config fills
--   Elements        src/elements.c: the table of elements with its look-ups
--   Memory          src/memory.c: Malloc, Realloc and free_allocated_memory; what malloc and realloc
--                   return is an argument of the step
--   Base            shared notation: tests, lists, exchanges, integers, doubles and endings
--
-- quicksort runs on fuel; more fuel than the segment is long is enough. The loop of bracket runs on the
-- 100 rounds of MAX_IT, which are enough since every branch of it raises nb_eval; that of brent runs on the 100
-- rounds of ITMAX, behind which the code ends the program. The bisection of a column
-- runs on fuel above the column's length. The sort of the composition nodes runs on a pass for each pair
-- of nodes and one more, since every pass with an exchange removes an inversion. The annealing
-- runs on the KMAX temperatures that loop_counter allows; the loop over a displaced table runs until
-- it is past both ends, from where on it changes nothing. The loops of read_config over the lines of a
-- file run on rounds, at most one for each line. All other loops are structural recursion on the
-- lines, the rows or the rounds that are left.
--
-- Not modelled: the forces and energies of the other interactions (src/force_*.c) and of analytic
-- potentials (src/functions_impl.c); the potential files with analytic potentials and those for KIM;
-- potential files with a negative number of values, which the code takes and then writes outside of its
-- arrays; of the configurations what depends on CONTRIB, KIM or analytic potentials; the outer loop of
-- Powell's method; output; the calls of MPI and KIM;
-- src/random_dsfmt.c, which is another project's library.
pub mod Base
pub mod Build
pub mod PairIndex
pub mod ForcePair
pub mod ForceVector
pub mod Evo
pub mod Elements
pub mod Memory
pub mod Functions
pub mod Params
pub mod PotentialHeader
pub mod Chempot
pub mod Config
pub mod Cutoffs
pub mod Bracket
pub mod PotTable
pub mod Powell
pub mod Splines
pub mod Anneal
pub mod Optimizer
pub mod Brent
pub mod Evolution
pub mod Linmin
