-- ===== src/Errors.antt =====
-- include/common.h: the error codes. A function of the source returns one of them negated.
pub data Error : Type 0 where
  echildrennum echildrentype etypeinfo ecallback ereturntype ecomplextype equerysyntax : Error
  eobecjtident edifferentnodetype esamenode enomemory ewrongorder enoelement enopredicates : Error
  enoelements ewrongoperator eunit esize ejointype enotcomparable enooperand enoperiod : Error
  enoobjstatus ewrongstreamtype eparam eresultfuncptr equerytype emaxqueries eselectors : Error
