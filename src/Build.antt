-- ===== src/Build.antt =====
-- The preprocessor flags of a potfit binary (src/Makefile, src/wscript): one Boolean for each macro
-- that the modelled code tests with `#if defined(...)`.
use potfit.Base.{Bool, true, false, ◌||◌}

pub record Build : Type 0 where
  pub apot : Bool
  pub pair : Bool
  pub eam : Bool
  pub tbeam : Bool
  pub adp : Bool
  pub meam : Bool
  pub ang : Bool
  pub stiweb : Bool
  pub tersoff : Bool
  pub tersoffmod : Bool
  pub coulomb : Bool
  pub dipole : Bool
  pub stress : Bool
  pub kim : Bool
  pub evo : Bool
  pub bindist : Bool

-- `defined(EAM) || defined(ADP) || defined(MEAM)`
abbrev pub embedded : Build → Bool
embedded b = b.eam || b.adp || b.meam

-- A binary for tabulated pair potentials, with nothing else switched on.
abbrev pub plain : Build
plain = record {
  apot = false;
  pair = true;
  eam = false;
  tbeam = false;
  adp = false;
  meam = false;
  ang = false;
  stiweb = false;
  tersoff = false;
  tersoffmod = false;
  coulomb = false;
  dipole = false;
  stress = false;
  kim = false;
  evo = false;
  bindist = false;
}
